-- ===== src/Transport.antt =====
-- src/raft/tcp_transport.h and tcp_transport.cpp: `TcpTransport`, the RPCs over TCP.
pub mod Wire
pub mod Server
pub mod Client
pub mod RoundTrip
