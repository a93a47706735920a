-- ===== src/Integrity.antt =====
-- src/integrity: trusted roots and hashes of manifests, and the control of the requests that fetch
-- them. One child per source file.
pub mod Verifier
