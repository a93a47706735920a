-- ===== src/RouteAssertions/Journey.antt =====
-- From issue to verification: the response of handleRouteAssert as the request of
-- handleRouteAssertVerify, in one worker.
mod Parsing
mod Fields
mod Steps
mod RoundTrip
mod Tests
pub use RoundTrip.*
