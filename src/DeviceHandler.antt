-- ===== src/DeviceHandler.antt =====
-- discover/device-handler.c: which boot option is the default, the countdown to it, and how
-- both end. Devices, boot options and the configuration are data; downloading and starting the
-- kernel (discover/boot.c) is seen through what it reports.
pub mod State
pub mod Priority
pub mod Timer
pub mod Default
pub mod Steps
pub mod Choice
pub mod Countdown
pub mod Cancel
pub mod Failures
pub mod Override
pub mod Removal
pub mod Queue
pub mod Resolution
pub mod Completed
pub mod Outcome
pub mod Announce
pub mod Commit
pub mod Order
