-- ===== src/CacheSet.antt =====
-- `CFileCacheSet` of src/FileCacheSet.cpp, and the methods of `CFileCache` that call back into it.
-- A cache is named by its type, since the source reaches it through the map of types alone.
pub mod State
pub mod Cleanup
pub mod Types
pub mod Objects
pub mod Cleans
pub mod Ends
pub mod Rounds
pub mod Space
pub mod Filed
pub mod Inserted
pub mod Room
pub mod Subscribed
pub mod Timers
pub mod Counts
mod Tests
