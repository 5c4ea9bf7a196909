-- ===== src/Net.antt =====
-- common/client.c and common/net.c: the clients of a program, and the sockets that it watches.
pub mod Client
pub mod Sockets
pub mod Network
pub mod Sending
pub mod Update
