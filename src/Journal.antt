-- ===== src/Journal.antt =====
-- memoryManage/journal: the frames, pages and journals of the memory-mapped log.
pub mod Frame
pub mod PageUtil
pub mod Page
pub mod Provider
pub mod Cursor
pub mod Writer
pub mod Log
pub mod Stores
pub mod Sharing
