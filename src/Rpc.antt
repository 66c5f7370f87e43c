-- ===== src/Rpc.antt =====
-- src/daemon/rpc_v2.{h,cpp}: the framed protocol between the client and the daemon.
pub mod Buffer
pub mod Socket
pub mod Frame
pub mod Crypto
pub mod Handshake
mod Pipe
