-- ===== src/Timetable.antt =====
-- packages/modules/timetable: wall-clock intervals.
pub mod Intervals
pub mod Number
pub mod Time
pub mod Slots
pub mod Conflicts
pub mod FreeRooms
pub mod Hash
pub mod Diff
pub mod Repository
mod Samples
mod VersionSamples
