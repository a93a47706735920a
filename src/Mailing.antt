-- ===== src/Mailing.antt =====
-- src/runtime/mailing: the queue, the delivery of its first item, and the transport's answers.
pub mod Transport
pub mod Queue
pub mod Delivery
