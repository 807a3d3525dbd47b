-- ===== src/Lib.antt =====
-- ShirleyOS: a verification library of the kernel's own logic.
--
-- The program. At boot a loader hands the kernel a map of the physical memory (include/shirley/
-- boot_info.hpp), from which kernel/memory/page_allocator.cpp builds the sets of managed and of free
-- pages. Drivers publish device objects in a registry by name; a stream or a disk becomes a device
-- through a table of operations, and a device becomes a stream or a disk again through a view. Interrupt
-- handlers push characters into a ring that the kernel reads without a lock. Cooperative tasks take
-- turns in a table of 64 entries. A user program reaches files through a table of 16 descriptors over
-- the virtual file system's own, which resolves a path through its mounts and keeps the open files.
--
-- The files, each with the code it models:
--   Pages         kernel/memory/page_allocator.cpp. Pages.Extents has the loops on the arrays of extents
--                 (align_usable, align_reserved, insert_extent, subtract_extent), Pages.Allocator the
--                 operations (initialize, allocate_page, free_page, contains, count_pages). Pages.Cover
--                 is the set of addresses that an array holds, the specification of all of it;
--                 Pages.History the sequences of allocations and frees by clients.
--   Heap          kernel/memory/heap.cpp: initialize, allocate, free and consistent. Heap.Chain sees the
--                 memory as the list of its blocks, Heap.History has the clients' steps and
--                 Heap.Clients their view of it, the live blocks. A Block** is the address of the
--                 block whose next it points to, and 0 for the variable free_head.
--   InputQueue    kernel/io/input_queue.cpp. InputQueue.Refine relates the ring to a bounded queue,
--                 InputQueue.Interrupt has the steps of a push between the memory accesses of read.
--   Scheduler     kernel/process/scheduler.cpp: initialize, create, run_next, block, wake and the
--                 queries. The body of a task is a parameter that may call the scheduler itself.
--   Devices       kernel/device/device.cpp and kernel/device/null.cpp: the calls of a device, the
--                 tables stream_operations and block_operations, the views Stream and BlockView;
--                 Devices.Registry has the table of devices, a finite map from names.
--   Blocks        drivers/block/ram_disk.cpp in Blocks.RamDisk, an implementation of the block device
--                 interface, and kernel/io/block_cache.cpp in Blocks.Cache, over any such device;
--                 Blocks.Cache.Setup takes its buffers from the heap.
--   Process       kernel/process/process.cpp: reset, teardown, open, close, read and write.
--   Vfs           kernel/fs/vfs.cpp over any file systems: Vfs.Paths (normalize and its parts), Vfs.Mounts
--                 (mount, unmount, stat, mount_for), Vfs.Files (open, here open_path, close, read, write,
--                 seek, truncate, read_file), Vfs.Names (make_directory, remove, rename, sync), Vfs.Listing.
--   Partitions    kernel/fs/partition.cpp: Partitions.Tables reads MBR and GPT tables (read, read_gpt,
--                 read_logical), Partitions.Window is the class Partition, a device on a part of a disk.
--   Shrfs         kernel/fs/shrfs.cpp on any block device: Shrfs has the bytes and the entries, Shrfs.Image
--                 mount, list and read, Shrfs.Walk lookup and path_of. Shrfs.Memory puts it on a RAM disk,
--                 Shrfs.Adapter (kernel/fs/shrfs_vfs.cpp) on the virtual file system.
--   Checksum      kernel/checksum/crc32.cpp: crc32 and crc32c; Checksum.Bits has the laws of exclusive or.
--   Elf           boot/common/elf64.cpp, the checks of an ELF file and its segments.
--   Irq           kernel/interrupt/irq.cpp: request, release and dispatch over the interrupt controller.
--   Text          kernel/text/string.cpp: equals, and in Text.Buffers length, copy and append;
--                 Text.Utf has kernel/text/utf.cpp: utf16_to_utf8 and utf8_to_utf16.
--   Format        kernel/format/number.cpp: to_decimal and to_hex.
--   Io            include/shirley/io.hpp and include/shirley/block_device.hpp, which the others share.
--   Integers      the C++ int of status codes.
--   Prelude       the libraries' names, tests on numbers, lists, arrays and searches.
--
-- How the code is read. A fixed array is a function of its index, with its count beside it, and the
-- well-formedness of a state says that the count is in bounds. Unsigned numbers are natural numbers,
-- with % 2 ^ w and sub64 written where the code may wrap around; a mask of a page or of the ring is %.
-- A null pointer is none, or the address 0 where pointers are compared. A buffer that a call fills is a
-- Boolean, whether it is not null, with the list of what then stands in it; a buffer that it reads is a
-- function of the index. A class with virtual functions is a record of functions over the state that
-- they share (ByteStream, BlockDevice, Services), and so is the hardware behind a component (Machine).
--
-- Loops. A loop over an index has the number of rounds left as its argument, which the caller sets to
-- the bound of the loop, so that it runs to its end. The loop of subtract_extent both moves on and
-- grows its array: it has fuel 2 * count + 2 and gives none if that runs out, which the theorems
-- exclude. normalize, walk and lookup have a round more than the path has characters, of which every
-- round takes one at least, and decode_from has one for every byte; the loops of the heap have one for
-- every byte of it, and every block has more than one; the loop over the GPT entries of a block has as
-- many rounds as the block has bytes. to_decimal and to_hex have the 20 and 16 places of their scratch
-- arrays, enough for any number below 2 ^ 64, and length looks at no more characters than the array
-- has, where a text with its null ends earlier.
--
-- Not modelled: the drivers' hardware accesses, assembly, the boot loader's firmware calls, output
-- (dump, error_text, type_name, the console), and so far exFAT and ext4 and the placing of user
-- programs in memory. The process table's hypotheses on the file system (Process.Leaks.Laws) say which
-- descriptors a call opens or closes; Vfs.Files.Contract has the virtual file system meet them. Those
-- of the interrupt requests (Irq.Wired.Laws) say which calls unmask or mask a line.
pub mod Prelude
pub mod Pages
pub mod Io
pub mod Text
pub mod Format
pub mod Integers
pub mod Devices
pub mod Blocks
pub mod InputQueue
pub mod Scheduler
pub mod Process
pub mod Irq
pub mod Vfs
pub mod Checksum
pub mod Partitions
pub mod Shrfs
pub mod Elf
pub mod Heap
