-- ===== src/Lib.antt =====
-- cpslib reads system figures of a machine (processors, memory, disks, logins, processes) behind one
-- C interface, pslib.h. This library models its Linux port, pslib_linux.c, its macOS port, pslib_osx.c,
-- the helpers in common.c that the ports call, and the demonstration program, driver.c: what the
-- functions return, what they leave allocated, and where they stray outside their arrays.
--
-- Parts and files, with the code that each is about:
--
--   Prelude     numbers, lists and Booleans that the parts share; Prelude.Lists and Prelude.Tests hold
--               the lemmas on lists and on Boolean tests.
--   Libc        the parts of <string.h>, <stdlib.h> and <stdio.h> that the code parses text with (strtok,
--               strtoul, strtol, atoi, fgets, %d), on bytes; Libc.Decimal has the lemmas on
--               numbers in decimal.
--   Machine     the world that commands pass on: a record of counters of blocks and streams, errno, and a
--               function that says which request for memory is met. A run ends with a value and a world,
--               or in a fault, such as a read through NULL or an access outside an array. check and
--               check_ptr are the macro check of common.h. Machine.Ending is about commands that only give back.
--   Floats      float and double, as a parameter: no theorem assumes a law of them.
--   Os          the kernel's and the C library's answers (files of /proc, statvfs, sysinfo, getmntent,
--               getutent, readlink, kill, getpwuid), as a parameter that stays fixed during a call.
--   Common      common.c: percentage, squeeze, grep_awk and the comparisons. Common.Fields has the fields of a
--               text, apart from strtok, and Common.Percent says what a percentage is.
--   Cpu         cpu_times, cpu_times_percent, cpu_util_percent, cpu_count and their helpers. Cpu.Reading says what
--               a line of /proc/stat stands for, and Cpu.Usage.Described what shares and utilisation are.
--   Memory      virtual_memory and swap_memory. Memory.Counters says which lines of /proc/vmstat count.
--   Disk        disk_usage; Disk.Devices is get_physical_devices, Disk.Partitions is disk_partitions and
--               free_disk_partition_info, Disk.Counters disk_io_counters and free_disk_iocounter_info.
--               Disk.Lookup has the lemmas on lfind.
--   Users       get_users and free_users_info.
--   Net         net_io_counters and free_net_iocounter_info.
--   Process     pid_exists, get_boot_time, clean_cmdline and the readers of /proc/<pid>; Process.Info is
--               get_create_time, get_process and free_process.
--   Osx         the macOS port. Osx.Host is what it asks of the system; Osx.Partitions, Osx.Memory, Osx.Cpu,
--               Osx.Process, Osx.Net, Osx.Disks and Osx.Users are its functions. What the port repeats word for
--               word of pslib_linux.c (sum_cpu_time and the two calculations, disk_usage, the loop of
--               get_users, pid_exists, get_username, the functions that free) goes by the Linux port's
--               definition.
--   Session     a client of the Linux port that gets lists and gives them back, as a relation between
--               what it holds before and after a call.
--   Demo        driver.c, which calls the Linux port and prints: each function with what it prints as its
--               value. Demo.Figures has the single figures, Demo.Shares the processor times and
--               Demo.Whole is main. What the system answers stays fixed during one of its
--               functions, but for the second reading of processor times.
--   Tests       a concrete machine, and runs of the models on it.
--
-- How they interact: the functions of pslib_linux.c call common.c (grep_awk, squeeze, percentage);
-- disk_partitions owns the array of get_physical_devices for one call; cpu_times_percent and
-- cpu_util_percent compare a caller's reading with one that they take by cpu_times; get_process collects
-- the readers of /proc/<pid>; a client frees each list by the function of its kind. A model keeps the
-- name of its function, and the comment above a helper says which part of the function it is. A loop
-- over lines is a recursion over what fgets delivers, with the code behind the loop as its last case,
-- and the code below a label `error` is a definition of its own.
--
-- Bounds and fuel: the buffers and arrays have the sizes of the source (fgets with 40, 50, 90, 120, 140,
-- 150, 300, 399 and 400 bytes; 100 device names; 20 processors; 30 partitions with counters; 15
-- interfaces; 5 partitions and 100 users at first, doubling as uint32_t; on macOS 400 bytes of mount
-- options, 500 of a command line, 32 of an interface's and 64 of a disk's name). squeeze_pass runs on
-- the buffer's length, which excludes its end; read_rounds on the length of the link's target plus one,
-- since each round at least adds a byte to the buffer; `decimal` on the number plus one.
--
-- Not modelled: which block a pointer frees (the world counts blocks and streams, so a double free is
-- not told from another free, except in net_io_counters of the macOS port, where it is a fault);
-- errno beyond fopen, calloc, check, kill, readlink and get_boot_time's strtoul; messages on stderr;
-- NULs inside the lines of text files; bytes that an earlier line leaves behind the NUL of a buffer;
-- negative pids; negative numbers in IOKit's statistics; the ports and references that Mach and IOKit count; a message of the macOS routing
-- socket without a length; the demonstration program on macOS; gcov_flush, which calls the compiler's
-- runtime; and bindings, tests and makefiles.
pub mod Prelude
pub mod Libc
pub mod Machine
pub mod Floats
pub mod Common
pub mod Os
pub mod Cpu
pub mod Memory
pub mod Disk
pub mod Users
pub mod Net
pub mod Process
pub mod Osx
pub mod Session
pub mod Demo
pub mod Tests
