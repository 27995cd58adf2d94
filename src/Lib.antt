-- ===== src/Lib.antt =====
-- The kernel of a small operating system with a virtual file system, as far as it is modelled here:
-- the physical memory manager, the threads, locks and semaphores, the virtual file system, and the
-- parts of its C library that they compute with.
--
-- Pmm models src/pmm.c, the first-fit allocator over a table with one byte for each chunk of 512
-- bytes. The record Pmm holds the file's statics; init, alloc and free are pmm_init, pmm_alloc and
-- pmm_free, with one function for each loop. Pmm/Rounding and Pmm/Sizes are about its bit loops,
-- Pmm/Cells about the table, Pmm/Blocks, Pmm/Alloc and Pmm/Free about the operations, Pmm/Safety
-- about both together, and Pmm/Init about the start.
--
-- Kmt models src/kmt.c with include/os.h. The record Kmt holds this_thread, the table of threads,
-- the thread objects by address, the processor's interrupt flag, the memory words of the stack
-- protectors, and the states of rand and of the memory manager. create, teardown and schedule are
-- kmt_create, kmt_teardown and kmt_schedule. Kmt/Spin has the spinlocks and semaphores,
-- Kmt/Semaphores what threads do with a semaphore in turn, Kmt/Schedule what the scheduler does.
--
-- Vfs models src/vfs.c over the interfaces of include/kernel.h. Vfs/Methods has the interfaces, as
-- a record of the methods of file systems and files, and the state that they work on. The record
-- Vfs holds the mount table and the lock; Vfs/Mounting has init, mount, unmount and fsls, and
-- Vfs/Calls access, open (open_path), read, write, lseek and close, each with its LOCK and UNLOCK
-- on every path. Vfs/Match and Vfs/Find are about find_fs, Vfs/Locking about the lock, Vfs/Laws has
-- what the methods keep, and Vfs/Steps, Vfs/Resolve, Vfs/Access, Vfs/Descriptors, Vfs/Open, Vfs/Io,
-- Vfs/Close and Vfs/Unmount prove what the calls do.
--
-- Os models os_interrupt of src/os.c, which saves a context, schedules and returns to another;
-- Os/Context says which.
--
-- Kvfs models src/fs/kvfs.c and src/fs/kvfile.c: the values with their expand, read, write and
-- lseek over the bytes of memory and the allocator, and lookup, create and access over the table of
-- keys; Kvfs/Table has the rest of src/fs/kvfs.c: init (_ctor), walk, open_inode (open) and delete
-- (_dtor). Kvfs/Laws is about the values, Kvfs/Memory about the bytes of memory, Kvfs/Refines about
-- expand and write on them, Kvfs/Lookup, Kvfs/Created and Kvfs/Create about the keys. Kvfs/Methods
-- puts them together as the methods that src/vfs.c calls.
--
-- Devfs models src/fs/devfs.c: init is its _ctor and open_inode its open. Devfs/Devices and
-- Devfs/Keymap have the devices of src/fs/devices.c, Devfs/Devfile the files of src/fs/devfile.c.
-- Devfs/Methods has the methods that src/vfs.c calls. Devfs/Typing and Devfs/Reading are about the
-- keyboard, Devfs/Naming about the names.
--
-- Procfs models src/fs/procfs.c and Procfs/Files the files of src/fs/otrofile.c, with the bytes
-- that their field data points to. Procfs/Names is about what is looked up, Procfs/Files/Reading
-- about reads and offsets.
--
-- Libc/Str models libc/src/string (strlen, strcmp, strcpy, strncpy, memcpy, memset) on the bytes of
-- objects, and Libc/Str/Tokens its strtok, Libc/Rand models libc/src/stdlib/rand.c, Libc/Ctype
-- models libc/src/ctype/ctype.c on ints, and Libc/Atoi models libc/src/stdlib/atoi.c. Libc/Printf
-- models libc/src/stdio/_vprintf_raw.c: itself the conversions (printf_d is _printf_d, and so on),
-- Libc/Printf/Format the variadic arguments and the loop, with sprintf and puts; Libc/Printf/Fields
-- and Libc/Printf/Format/Counts are about what is printed, and how much, Libc/Printf/Decimal and
-- Libc/Printf/Format/Sprintf about reading it back. Libc/Time models libc/src/time; Libc/Time/Clock
-- is about its packed form, Libc/Time/Calendar about weekdays, and Libc/Time/Ctime, with
-- Libc/Printf/Format/Dates, about the text of a date. Base has the lists, the integers, the 32-bit
-- words and the outcomes that all share.
--
-- How the parts interact: kmt_create and kmt_teardown take their stacks from the memory manager,
-- kmt_schedule draws its starting slot from rand, the lock names go through strncpy, and the
-- virtual file system takes its spinlock, changes the descriptors of the running thread and
-- compares paths with the string library.
--
-- Conventions. A pointer is its address and NULL is 0. The machine word has 32 bits and wraps
-- around, as written out in Base/Words. An Outcome is a value, a halt (panic, assert and _Exit end
-- in one), undefined behaviour (a read or a write outside an object, a shift by a negative count)
-- or unfinished, which only the end of a loop's fuel gives. The bit loops have fuel 33, one more
-- than a word has bits, since every round clears the lowest bit; the search of pmm_alloc has one
-- more round than the pool has chunks; the scan of kmt_schedule has one round for each slot. The
-- theorems on these loops show that this is enough.
--
-- What is printed is the list of the bytes that go to putc, and what %n stores is a list of
-- addresses and values. A width or a precision in the format that is no int is undefined, and one
-- that * takes from INT_MIN is 2^31. An argument of another type than its conversion's is
-- undefined. The loop of _vprintf_raw takes a byte of the format in each pass, so its fuel is one
-- more than the length, and a value of 32 bits has at most 32 digits, so the digits have fuel 33.
--
-- The keyboard's register gives the items of a list, one at each read, and a getch that comes to
-- the list's end is unfinished, for it waits. The fields of the timer's register are at least 0,
-- and so is a time_t that localtime takes; a year whose weekday overflows the ints of get_wday is
-- undefined, as is one that is no int.
--
-- Memory is one array of bytes: a write past a block that pmm_alloc gave, which expand makes where
-- twice the new size wraps around, changes the bytes that lie there. The scan of kmt_schedule reads
-- the status of an empty slot at address 0.
--
-- Parameters. The context that _make of the abstract machine sets up for a new thread is an
-- argument of create. A _yield is the end of the step that comes to it: a pass of kmt_sem_wait is a
-- function of its own, and a thread that tears itself down is reported by a flag. The methods of
-- file systems and files, which src/vfs.c calls through tables of functions, are a record of
-- functions, and the laws that the system calls rely on are a hypothesis of their theorems: a
-- method that returns has left the processor, the threads and the reference counts alone. A method
-- may also halt or be undefined, and the theorems say that the call then ends so, too. Kvfs/Methods
-- and Devfs/Methods have the records of kvfs and devfs, over their tables, the memory, the memory
-- manager and the devices, and the laws hold of both.
--
-- Not modelled: the entry point, the abstract machine under am, and the interactive tests.
mod Base
pub mod Pmm
pub mod Libc
pub mod Kmt
pub mod Vfs
pub mod Devfs
pub mod Kvfs
pub mod Procfs
pub mod Os
