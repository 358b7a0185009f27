-- ===== src/Tests.antt =====
-- The properties at concrete inputs.
mod Samples
mod Configuration
mod Devices
mod Readings
mod Polling
mod Fleet
mod Capture
mod Development
mod Network
mod Commands
