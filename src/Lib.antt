-- ===== src/Lib.antt =====
-- nlplatform is the platform layer of embedded products on FreeRTOS: portable services in C above
-- drivers that each product supplies. This library models its services one by one; what the
-- product, the RTOS or another library supplies is a parameter.
--
-- - Prelude: shared names. Tests are Boolean tests on the native numbers, Words the 32-bit sums and
--   differences with their wrap-around, Lists and Slices the lists, Bytes the checked `memcpy`,
--   Results the outcome of code that may stop at an assertion.
-- - Swtimer: src/nlswtimer.c, the timers on the RTOS tick. `start`, `cancel`, `init`, `pre_sleep`,
--   `post_sleep` and `rtos_tick_handler` are `nl_swtimer_start` and so on. A list entry is its
--   address; the `next` fields are the order of two lists. A timer function may start, cancel and
--   initialise timers when it runs in the tick handler; what it does is the parameter `call` of
--   `Platform`. The handler's loop has fuel for one more round than the current list is long: a
--   round takes a timer off the list, and what a timer function starts is due at a later tick.
-- - RamConsole: src/nlram_console.c, the log in RAM that survives a reset. `init_bootloader`,
--   `init` and `write` are `nl_ram_console_init_bootloader` and so on. Every `memcpy` is checked
--   against the length of the buffer. The loop of a write has fuel for one more round than there
--   are bytes. RamConsole.Logs reads the two logs off the buffer, the newest byte first.
--
-- - Flash: src/nlflash.c, the access to the flash devices under their locks. A device of the table
--   and the lock functions are steps on `World`, the rest of the system. Flash.Locks counts how
--   often a lock is held; Flash.Storage is the interface that a client relies on, a device that
--   works on a memory.
--
-- - Files: src/nlfs.c, files on partitions, on Flash. `open_cb`, `read_cb`, `write_cb`, `close` and
--   `seek` are `nlfs_open_cb` and so on, in the build without FAT files. The ELF loader, the
--   environment and the partition table are fields of `Product`. Files.Contents reads a file as a
--   range of the device's memory.
--
-- - ResetInfo: src/nlreset_info.c, the reason of the last reset and the saved fault. ResetInfo
--   itself has the build with dedicated RAM, ResetInfo.TempRam that with overlaid RAM and flash, on
--   Flash.
--
-- - Time: src/nltime.c, milliseconds from the nanoseconds of the software timers.
--
-- - Profile: src/nlprofile.c, the time that tracked items were enabled in an interval.
--
-- - FlashSpi: src/nlflash_spi.c, the driver of a flash chip on an SPI bus. FlashSpi itself has the
--   requests and the transactions with the chip, FlashSpi.Calls `erase`, `read`, `write` and
--   `read_id`, that is `nlflash_spi_erase` and so on, FlashSpi.Cache the build with the buffer for
--   a partial page, FlashSpi.Chips the headers of include/spi_flash. The bus is a function of the
--   log of all calls to it; FlashSpi.Log picks from the log the commands with an address,
--   FlashSpi.Sectors and FlashSpi.Pages read them as sectors to erase and as bytes to program, and
--   FlashSpi.Orders says what bytes of a transfer make up a command and its address, with
--   FlashSpi.Bits on the number that the chip reads as the address. The loops over pages have fuel
--   for as many rounds as there are bytes, and a page is never empty; the other loops count.
--
-- - Trace: src/nltrace.c, the events that are traced, as a doubly linked list in a table. The
--   operations are named without `nltrace_` and `_locked`; the time of the timer is a parameter.
--   Trace.Queue reads the links as a list, Trace.Starting, Trace.Removing, Trace.Printing,
--   Trace.Ending and Trace.Clearing each have one operation, and Trace.Calls has all of them in any
--   order. The loop that prints has fuel for one round more than there are entries, and each round
--   frees one.
--
-- - Buttons: src/nlgpio_button.c and include/nlgpio_button.h, the buttons, without
--   `nlgpio_button_`; `isr` and `init` are those of the build that debounces. Its state holds the
--   `Timers` of Swtimer, and `isr` cancels and starts a timer there; `debounce_handler` is the
--   function of that timer. The results of nlgpio are parameters, and the calls of the product's
--   callback are a list. Buttons.Debounce follows one button through interrupts and expiries in any
--   order.
--
-- Swtimer and RamConsole call no other part; their functions run with interrupts disabled, so an
-- operation is one step here. Files and ResetInfo.TempRam call Flash. In these parts nothing loops
-- but the initialisation of the devices and the totals of the profile, which count.
--
-- Not modelled: what only reads a field, debug output, the variant of the timers on a platform
-- timer, the hardware drivers and fault handlers, and headers that declare what a product
-- implements.
pub mod Prelude
pub mod Swtimer
pub mod RamConsole
pub mod Flash
pub mod FlashSpi
pub mod Files
pub mod ResetInfo
pub mod Time
pub mod Profile
pub mod Trace
pub mod Buttons
