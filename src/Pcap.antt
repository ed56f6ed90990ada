-- ===== src/Pcap.antt =====
-- pcap/: captured packets become traffic.
pub mod Stream
pub mod Connection
pub mod Packets
