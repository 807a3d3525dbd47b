-- ===== src/Pages.antt =====
-- kernel/memory/page_allocator.cpp: extents of free and of managed pages in fixed arrays.
pub mod Extents
pub mod Moves
pub mod Search
pub mod Cover
pub mod Slots
pub mod Insert
pub mod Subtract
pub mod Allocator
pub mod History
mod Tests
