-- ===== src/Lib.antt =====
-- A model of the MartianOS kernel (mp3_Final/student-distrib), a 32-bit x86 kernel in C with three
-- terminals, six processes, a read-only file system in a boot module and a writable one, PSV, on
-- disk.
--
-- The parts and how they interact. A program calls the kernel through the calls of
-- syscall_handler.c. Descriptor calls go through the operation table of an entry to a driver: the
-- boot-module file system (fs.c), PSV (PSV_fs_lite), the clock, or the keyboard and the screen.
-- execute looks a program up, copies its file into the page of a new process and enters it; halt
-- goes back to the process that started it; the timer switches between the terminals. The keyboard
-- fills the line buffer of the terminal that is viewed.
--
-- Which file models which part:
--   Prelude: names, Boolean tests, lists and integers; Prelude/Machine: arithmetic of `uint32_t`;
--     Prelude/Small: what holds of all numbers below a bound, by a run.
--   Word: words as lists of bits, for the bitmaps and the interrupt masks.
--   CString: strlen, strncmp, strncpy, strrev and itoa of lib.c.
--   Fs: read_data and file_read of fs.c, over a byte memory that holds the image.
--   Directory: the entries of the boot block, the look-up of a name in PSV and then in them, file_open,
--     dir_open and dir_read of fs.c.
--   Process/Types, Process/Descriptors: the control block, and open, close, read, write and
--     init_file_table of syscall_handler.c. `Drivers` is the interface to the operation tables and
--     the look-up of names.
--   Process/Pids: record_process, decord_process and get_pcb_ptr.
--   Process/Args: parse_args (Write and Split: what it writes, and where it cuts), and
--     Process/System/Getargs: syscall_getargs.
--   Process/System: syscall_execute (Execute), syscall_halt (Halt) and schedule (Schedule), over
--     the processes, the page directory, the memory in pages of 4 MB and the terminals (State). What
--     the source does by assembly is a value of `Outcome`: a return, a jump into a program, or a jump
--     into the frame that another process saved. `Frame` holds what a call finds in its own frame.
--   Psv/Types, Psv/Bitmap, Psv/Counts, Psv/Location: PSV.h, and the bitmaps, the counters and
--     idx2LBA of PSV_fs_lite/helper.c.
--   Psv/Volume: the super block, the current folder and the sectors, the calls of helper.c that read
--     and write nodes, and PSV_setup and PSV_mount. `Layout` is the interface to the compiler's layout
--     of structures, and `Encodes` what it promises.
--   Psv/Path, Psv/Walk: split_path, goin_sp and goin. Psv/Terms, Psv/Folders: the terms of a folder, and
--     the creation of folders and files. Psv/Content: write_content and the deletion of files.
--     Psv/Remove: the deletion of folders. Psv/Read: read_content, the look-up of a file by path and the
--     calls on an open file or folder.
--   Keyboard: keyboard.c and switch_terminal of terminal.c. `Display` is the interface to what is
--     drawn. Terminals: terminal_init, keyboard_init, terminal_read and terminal_write.
--   Printf: printf and puts of lib.c, as the characters that they hand to nb_putc.
--   Ports: the interface to inb and outb. Rtc: rtc.c. Pit: pit_int_handler of pit.c.
--   Paging: init_page_dir of paging.c, and the calls that change the pages of the screen:
--     switch_fish_paging, change_vidmem_mapping and syscall_vidmap.
--   Programs: the programs cat, ls and shell, mp3_Final/syscalls, over the interface `Calls`;
--     `Console` and `Typing` state what they rely on, and Programs/Boot is such a kernel, over
--     file_read.
--   Pic: the interrupt masks and the end of an interrupt, i8259.c.
--
-- Conventions. Names are those of the source, in lower case with underscores. An object in memory
-- is the list of its bytes; reading behind it gives 0 and writing outside of it changes nothing. A
-- result of -1 is `minus_one` where the source has an `int`, and the bit pattern `ones32` where it
-- has a `uint32_t`. State is passed explicitly, and a call gives its result and the state after it.
-- Two calls can go past an object: split_path, whose table of names is then longer, and getargs,
-- which is given the memory behind the arguments.
--
-- A local variable of PSV that a failed read leaves unset makes a call that goes on with it `none`, and
-- so does an index outside of a local table.
--
-- Bounds and fuel. Loops with a bound in the source recurse on the rounds left. strrev has fuel for
-- one round a character and needs half of them; itoa has 32 rounds, and a `uint32_t` has at most 32
-- digits in any radix from 2 on. delete_folder has fuel for the levels of folders.
-- The loop of set_frequency has 32 rounds, one for each bit of its argument. A wait, in rtc_read and
-- terminal_read, runs over the interrupts or the scan codes that come in. The loops of cat and ls
-- have one round for each piece that they read, and one more, and that of the shell one for each
-- line.
--
-- Not modelled: drawing (the windows, VGA, VBE, nb_putc and kbd_putc), the commands of harddisk.c,
-- mouse.c, i8259_init, rtc_pulse, the processor's tables and the exceptions, the other user programs,
-- and mp3_terminal, an older copy of the kernel.
pub mod Prelude
pub mod Word
pub mod CString
pub mod Directory
pub mod Fs
pub mod Keyboard
pub mod Paging
pub mod Pic
pub mod Pit
pub mod Ports
pub mod Printf
pub mod Process
pub mod Programs
pub mod Psv
pub mod Rtc
pub mod Terminals
