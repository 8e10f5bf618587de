-- ===== src/Devices.antt =====
-- unyport/backend/sse/device_identity.go: what the program says about a neighbour on the network.
pub mod Prefixes
pub mod Oui
pub mod Names
pub mod Identity
