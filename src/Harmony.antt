-- ===== src/Harmony.antt =====
-- The network stack, harmony/.
pub mod Checksum
pub mod Ip
pub mod Tcp
pub mod Arp
pub mod Udp
pub mod Ethernet
pub mod Icmp
pub mod Dhcp
mod Hosts
mod Tests
