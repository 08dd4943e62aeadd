-- ===== src/Lib.antt =====
-- FreeCore, a kernel for x86-64, in kernel/src. This library models its heap, its memory functions,
-- its virtual filesystem, the ext4 filesystem, the registry of its drivers, the keyboard and mouse
-- drivers, the descriptor tables and the formatted output, and shows what each promises.
--
-- The parts and their files:
--   * Prelude, Memory: the native naturals with Boolean tests, lists and integers; the memory as a
--     function from addresses to bytes, words in it by their bytes, and arithmetic that wraps at 2^64.
--   * Minstd: kernel/src/lib/minstd.c, the functions `memcpy`, `memset`, `memmove` and `memcmp`,
--     with those that a count bounds, `strnlen`, `strncmp` and `strncpy`, in Minstd.Bounded,
--     those that run up to a NUL, `strlen`, `strcpy` and `strcat`, in Minstd.Unbounded, on fuel, of
--     which one round more than the string is long is enough, and `strcmp` in Minstd.Strings.
--   * Kmalloc: kernel/src/mm/kmalloc.c, every function. The state `Mm` is the memory and the two
--     static variables; the address of `kernel_heap` is a parameter, with `IsPlaced` for what the
--     linker does. The loop of `find_free_block` runs on `search_fuel` rounds, one more than there
--     are headers that fit into the heap, so that the walk of a well-formed heap ends before them;
--     running out is the answer `diverges`, which `kmalloc` passes on as `none`. Kmalloc.Policy is
--     the abstract view: the heap as a list of blocks, and the first-fit policy on it.
--   * Vfs: kernel/src/fs/vfs.c and kernel/src/fs/vfs.h. Vfs.Types has the data, Vfs.Path the
--     normalization of paths, Vfs.Lookup the walk from the root, Vfs.Mounts the mount table,
--     Vfs.Files the table of descriptors, Vfs.Names the calls on a path. A path is the list of its
--     characters. The operations of a filesystem's nodes are a parameter: functions, found by the
--     address of their table, that may change the nodes and whatever else the driver keeps. The
--     tokens of a path are taken on fuel, one more than its length. A copy of a name that runs over
--     its buffer is the outcome `none`.
--   * Keyboard: kernel/src/arch/x86/keyboard.c. Keyboard.Tables has the
--     characters of the keys, Keyboard.Buffer the ring buffer, Keyboard.Ports the exchange with the
--     controller, Keyboard.Input the interrupt and the calls that read keys, Keyboard.Start the start. `inb` and `outb` are
--     parameters on a state of the hardware; the loops that wait and retry run as often as their
--     counters say, and the loop of `ps2_keyboard_get_char` takes a scancode in each
--     round. The loop that empties the output buffer at the start ends after `patience` rounds.
--   * Drivers: kernel/src/drivers/driversys.c and kernel/src/drivers/driversys.h. Drivers.Types has the
--     data, Drivers.Registry the operations; a class is an array of slots and a count. The functions of
--     a driver are a parameter, found by the address of their table, and may change every driver and
--     whatever else there is, but do not register or unregister drivers themselves.
--   * Descriptors: kernel/src/arch/x86/gdt.c and kernel/src/arch/x86/idt.c, the segments and the
--     interrupt gates, with a handler as a function that may not return.
--   * Mouse: kernel/src/arch/x86/mouse.c. Mouse.Ports has the exchange with the mouse, Mouse.Packet the
--     packets and the interrupt, Mouse.Start the start and the registration. A sum of coordinates that
--     does not fit an `int` wraps around.
--   * Console: kernel/src/kernel/io.c and kernel/src/arch/x86/serial.c. Console.Number has the text of
--     a number, Console.Format `kvsnprintf`, Console.Serial the serial port, Console.Output what is
--     printed. A number that goes over the array `tmp` is the outcome `none` or `overrun`. The
--     arguments of a format are a parameter that gives one word after another. The loop over a
--     format runs as often as it has characters, and the digits of a number on 64 rounds, as many
--     as a word has bits. The loops that wait for the port end after `patience` reads of its
--     status; the theorems assume a port that is ready before that.
--   * Ext4: kernel/src/fs/ext4/ext4.c, kernel/src/fs/ext4/ext4.h and kernel/src/drivers/block/block.h.
--     Ext4.Layout has the packed structures, as the sizes of their fields, and the fields as numbers in
--     a buffer of bytes; Ext4.Device the structure of a mounted filesystem and the reading of blocks and
--     inodes; Ext4.Extents the tree of extents; Ext4.Alloc the bitmaps, and the writing of a block;
--     Ext4.Files the bytes of a file; Ext4.Dirs the entries of a directory; Ext4.Nodes and
--     Ext4.Operations the nodes and the table of operations for the virtual filesystem; Ext4.Mount and
--     Ext4.Driver the mounting and the registration. The block device's functions and the heap's are
--     the parameter `Services`, on a state `W`, and a buffer from the heap is a local one. Theorems name
--     how many buffers the heap must have to give, two at most. A structure
--     that is passed by its address is passed as its value, and comes back if it is changed; the tests
--     of such addresses for NULL have no counterpart. The loops run as often as their counters say; a
--     block of a directory is scanned with as many rounds as it has bytes, since each goes further.
--     A division by zero has a value in the model; the theorems assume block sizes that are not 0.
--
-- How they interact: `kmalloc_init` and `kzalloc` call `memset`, `krealloc` calls `memcpy`; vfs.c
-- uses the string functions of minstd.c, which are modelled where it calls them, with `/` as the
-- delimiter. The search of the registry calls `strcmp`. `ps2_mouse_init` and `ps2_keyboard_init`
-- register their handlers in the table of idt.c, whose state of the machine is the device, and
-- `probe` of the mouse's driver, which the registry calls, is that start. The gates select the
-- kernel's code segment of gdt.c. `kprintf` formats with `kvsnprintf`, which calls
-- `int_to_string`, and sends with `serial_write_char`. The ext4 driver's table of operations is one of
-- those that the virtual filesystem calls.
--
-- Not modelled: what the other parts print with `kprintf` and `kerr`, which changes no state of
-- theirs; `strspn`, `strcspn`, `strrchr` and `strtok_r` for other delimiters; the registration of
-- the keyboard's driver; the assembly and the instructions, which are parameters; the callback
-- that prints the mouse's state; the bytes that a buffer of the ext4 driver holds as part of the heap's
-- memory; the order of the calls in kernel/src/core/main.c; interrupts that come while one of these functions runs.
pub mod Prelude
pub mod Memory
pub mod Minstd
pub mod Kmalloc
pub mod Vfs
pub mod Keyboard
pub mod Descriptors
pub mod Mouse
pub mod Drivers
pub mod Console
pub mod Ext4
