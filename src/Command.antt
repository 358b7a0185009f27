-- ===== src/Command.antt =====
-- cmd/homewizard_exporter: the parts of the commands that decide something.
pub mod Args
pub mod Capture
pub mod Discover
pub mod Check
pub mod Main
pub mod Pairing
