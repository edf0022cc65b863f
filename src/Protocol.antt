-- ===== src/Protocol.antt =====
-- lib/pb-protocol: the messages between the server and its clients.
pub mod Words
pub mod Reader
pub mod Fields
pub mod Codec
pub mod Device
pub mod BootCommand
pub mod PluginOption
pub mod Status
pub mod BootOption
pub mod Autoboot
pub mod Auth
pub mod Config
pub mod SystemInfo
pub mod Transport
