-- ===== src/Tcp.antt =====
-- transport/tcp/src: the packets of the protocol on a byte stream.
pub mod Stream
pub mod Server
pub mod Client
pub mod Writes
