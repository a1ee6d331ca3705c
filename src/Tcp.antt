-- ===== src/Tcp.antt =====
-- root/app/libs/tcp: frames, the stream decoder, and whole frames over a socket.
pub mod Frame
pub mod Decoder
pub mod Protocol
pub mod SocketOps
pub mod TcpSocket
pub mod TcpSocketWin
pub mod Handles
