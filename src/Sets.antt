-- ===== src/Sets.antt =====
-- include/dsa/svset.h and include/dsa/super_set.h: the sets of the data structure graphs.
pub mod Svset
pub mod Members
pub mod Ranges
mod Refine
pub mod Super
mod Places
mod Examples
