-- ===== src/App.antt =====
-- The programs of PacketForge_V1/apps.
pub mod ServerMain
pub mod ClientMain
pub mod Probe
pub mod IntegrationSuccess
pub mod RemoteClose
pub mod MalformedPacket
pub mod Clients
pub mod SendFailure
pub mod Resets
pub mod Together
