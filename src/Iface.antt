-- ===== src/Iface.antt =====
-- mcanbus/src/iface.rs: the interfaces of the host and the state of their controllers.
pub mod State
pub mod Attr
pub mod Reply
pub mod Netlink
pub mod Sysfs
pub mod Bitrate
