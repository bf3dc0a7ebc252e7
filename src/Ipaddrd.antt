-- ===== src/Ipaddrd.antt =====
-- IPADDRD: the daemon of IPADDRD/C/inet.c that reports a host's addresses in UDP frames, and what
-- IPADDRD/GO/SRC/main.go reads of such a frame.
pub mod Cli
pub mod Frame
pub mod Report
pub mod Collector
