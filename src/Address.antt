-- ===== src/Address.antt =====
-- include/wshttp/address.hpp and src/address.cpp: internet addresses and pairs of them.
-- `inet_pton` and `inet_ntop` are arguments; the byte order of the machine is the argument
-- `big_endian`. The `uri` of the same files is in Uri.
pub mod Ipv4
pub mod Ipv6
pub mod Ip
