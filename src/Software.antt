-- ===== src/Software.antt =====
-- rust_driver/src/device/software/: the card in software, which sends the packets of work
-- descriptors and answers the packets it receives.
pub mod Message
pub mod Payload
pub mod Request
pub mod Logic
pub mod Memory
