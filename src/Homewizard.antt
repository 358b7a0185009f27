-- ===== src/Homewizard.antt =====
-- internal/homewizard: the local API of the devices, both generations of it.
pub mod Models
pub mod Errors
pub mod Timestamps
pub mod V1
pub mod V2
pub mod Agreement
pub mod Capabilities
pub mod Tls
pub mod Client
pub mod Probe
pub mod Pair
