-- ===== src/Lib.antt =====
-- A verification library for the 64-bit teaching kernel under os/kernel and its user part, os/user.
--
-- Links: the doubly linked circular lists of os/kernel/lib.h. `Links` is the store of the two
--   words of a `struct List` at every address; a structure that embeds one goes by the address of
--   that member, since `container_of` only takes off a constant. Links/Ring says which store holds
--   which list, Links/Ops what the operations do to it, Links/Walk what a search along it finds.
-- Sched: os/kernel/schedule.c. `Cpu` is one entry of `task_schedule` with the tasks that it
--   refers to; Sched/Queue has the run queue, Sched/Pick and Sched/Schedule what `schedule` does.
-- Wait: os/kernel/waitqueue.c and os/kernel/semaphore.c over Sched, with whose run queue they
--   share the links. Wait/Queue has the wake up, Wait/Join a new member, Wait/Sleep the sleep,
--   Wait/Counter the semaphore. Links/Other says that a change of one list leaves the others.
-- Driver: the requests of os/kernel/disk.c over Wait, with the ports of the drive as the
--   parameter `Ports`. Driver/Handlers has the handlers, Driver/Calls the calls, Driver/Queue the
--   end of a request and the start of the next, Driver/Service the interrupts, Driver/Handed the
--   node that `disk_transfer` hands in, Driver/HandIn the queue with it, Driver/Submit the call,
--   Driver/Address the registers. A wait for the drive has fuel, which `Answers` assumes to be
--   enough; the loops over the run queue have it for its members.
-- Memory: the physical pages of os/kernel/memory.c. `Memory` is `mem_structure` with the arrays
--   that it points to; a page or a zone goes by its index. Memory/Alloc is `alloc_pages`,
--   Memory/Pages the bits of the map. The `flags` argument of `alloc_pages`, which the code never
--   reads, is left out. The search of a zone has fuel for its last page number and two more
--   rounds, and is proved not to run out of it.
-- Slab: `kmalloc` and `kfree` of os/kernel/memory.c over `Pages`, what they use of the physical
--   pages; Slab/Physical fills it with those of Memory. The ring of slabs of a cache is the list
--   of its members, a bit map a function of the number of the bit. Slab/Bitmap is the search for a
--   clear bit, Slab/Object an object from a slab, Slab/Create a new slab, Slab/Free is `kfree`,
--   Slab/Owner the slab that it finds and Slab/Return what it does to an object. A call nests in
--   another for the header of a slab and for its map, which go to caches of small objects, so a
--   depth of two is enough; the theorems hold for every depth from 1.
-- Timer: os/kernel/time.c. `Timers` is `timer_list_head` with the timers at all addresses.
-- Fat: the allocation table, the reads and writes of files and lseek of os/kernel/fat32.c. The
--   record `Disk` is what `transfer` of os/kernel/disk.c does for one sector, and `Works` what is
--   assumed of it on the sectors in use. Fat/Entry has one entry of the table, Fat/Mirror the
--   copies of the table, Fat/Free the search for a free entry, Fat/Seek the positions in a file,
--   where the sum of SEEK_CUR is one of integers. Fat/Data has the clusters as bytes, Fat/Read
--   with its children is `FAT32_read`, Fat/Inode `fat32_write_inode` and Fat/Write `FAT32_write`;
--   whether `transfer` succeeds for a sector is a parameter, `answers`, and memory is a function
--   from addresses to bytes. A cluster goes to `readfatentry` as it is, since the numbers of
--   clusters fit in its `unsigned int`. Each round goes through one piece of the request.
-- Print: numbers as text in os/kernel/printk.c. A text is the list of its character codes.
--   Print/Digits has the digits, Print/Width the padding, Print/Scan the way back. The digit loop
--   has fuel for the 64 bits of a `long`, and is proved to end. Print/Format and its children are
--   `vsprintf`.
-- Screen: `putchar` and the cursor of `color_printk` in the same file. Screen/Pixels has the
--   pixels of a character, Screen/Cursor the cursor, Screen/Frame the memory behind the frame
--   buffer. The indices of pixels are natural numbers, taken to be below
--   2 ^ 31.
-- Keyboard: the scan code buffer of os/kernel/keyboard.c. Keyboard/Buffer has the buffer as a
--   queue, Keyboard/Wrapped the read beyond the end of the buffer. A read that sleeps is the
--   result `none`.
-- Vfs: `path_walk` of os/kernel/vfs.c, over the `lookup` of a file system, which is a parameter.
--   The memory of its entries is followed in Sys.
-- Mount: the list of file system types in os/kernel/vfs.c. Mount/Found is the search,
--   Mount/Linked the changes of the list, Mount/Registered what they amount to.
-- Keys: scan codes into lines in os/user/init.c, with the table of os/user/keyboard.c.
-- Shell: the command line of os/user/init.c.
-- Sys: the calls of os/kernel/sys.c on files, over Vfs. Sys/Open has `sys_open`, Sys/Calls the
--   calls on a descriptor, Sys/Descriptors their life, Sys/Area the range of user memory,
--   Sys/Slots the search for a descriptor, Sys/Memory the blocks that `path_walk` leaves held. The
--   operations of a file, and whether `kmalloc` succeeds, are the parameter `Kernel`; what it
--   works on is `world`.
-- Brk: `sys_brk` of os/kernel/sys.c and `do_brk` of os/kernel/memory.c, with the page tables as
--   words by their addresses. Brk/Steps has one round of the loop, Brk/Extend the end of the
--   memory of a task. The allocators are the parameter `Supply`, and so is what the clearing of 2M
--   of `struct Page`s does to them. The loop has fuel for the pages.
-- Malloc: `malloc` of os/user/malloc.c over `brk`. Malloc/Blocks says what is assumed of `brk`,
--   and where the blocks lie.
--
-- Numbers are natural numbers with the wrap-around of `unsigned long` written out; a `long` is an
-- integer, whose overflow C leaves undefined. Loops along a list take fuel, and a result `none`
-- means that the fuel ran out or that the code faults; one round more than the list has members is
-- always enough, as the theorems state. Interrupts are off in `schedule`, so it is one step.
--
-- Not modelled: what the code prints, assembly, the page tables loaded by `switch_mm`. The interrupts
-- that could come between the steps of `disk_transfer`, and other processors, are left out; ports are
-- accessed by the disk driver alone, as a parameter.
pub mod Base
pub mod Brk
pub mod Driver
pub mod Fat
pub mod Keyboard
pub mod Keys
pub mod Links
pub mod Malloc
pub mod Memory
pub mod Mount
pub mod Print
pub mod Sched
pub mod Screen
pub mod Shell
pub mod Slab
pub mod Sys
pub mod Timer
pub mod Vfs
pub mod Wait
