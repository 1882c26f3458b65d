-- ===== src/Network.antt =====
-- config/cloudinit/network: the network configuration of cloud-init.
pub mod Stanza
pub mod Debian
pub mod Interface
