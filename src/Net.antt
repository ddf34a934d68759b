-- ===== src/Net.antt =====
-- src/net: the sockets of the library, which pass each call on to those of src/sys.
pub mod Stream
pub mod Listener
pub mod Udp
