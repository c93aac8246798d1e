-- ===== src/Gather.antt =====
-- src/bin/honas_gather.c: the collector of queries.
pub mod Frames
pub mod Queries
