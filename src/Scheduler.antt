-- ===== src/Scheduler.antt =====
-- kernel/src/task/scheduler.cpp and kernel/include/task/scheduler.hpp: the multilevel feedback queue
-- of each core.
pub mod State
pub mod Queues
pub mod Switching
pub mod Maintenance
pub mod Bitmap
pub mod Invariant
pub mod Steps
pub mod Total
pub mod Wakes
pub mod Tick
pub mod Boost
pub mod BoostAll
pub mod Run
pub mod Faults
mod Tests
