-- ===== src/Net.antt =====
-- The network process (sw/apps/net): addresses on the local link, IPv4 with its checksum, UDP and
-- TCP. A layer hands what it sends to the one below as a value.
pub mod Octets
pub mod Checksum
pub mod Link
pub mod Arp
pub mod Ip
pub mod Udp
pub mod Tcp
pub mod Telnet
pub mod Tftp
mod Tests
