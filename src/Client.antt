-- ===== src/Client.antt =====
-- pkg/client: the client's side of the protocol.
pub mod Requests
pub mod Config
pub mod Rpc
pub mod Stream
pub mod History
pub mod Connect
