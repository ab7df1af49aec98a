-- ===== src/Interpose/C.antt =====
-- src/interpol-c.c: the interposed functions of the C bindings. Each calls the PMPI function between
-- two readings of the time stamp counter, and then registers the call.
pub mod Management
pub mod PointToPoint
pub mod Synchronization
pub mod Collectives
