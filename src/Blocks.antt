-- ===== src/Blocks.antt =====
-- The block devices: drivers/block/ram_disk.cpp and kernel/io/block_cache.cpp.
pub mod RamDisk
pub mod Cache
