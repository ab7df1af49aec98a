-- ===== src/MpiEvents.antt =====
-- interpol-rs/src/mpi_events: the structs of the events, by directory.
pub mod Collectives
pub mod Management
pub mod PointToPoint
pub mod Synchronization
