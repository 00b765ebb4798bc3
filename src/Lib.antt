-- ===== src/Lib.antt =====
-- ArcMonark is a small x86-64 kernel in C. Interrupt handlers for the keyboard, the mouse and the timer
-- feed tasks; memory is handed out as frames (physical), pages (virtual) and blocks (the heap).
--
-- The parts, and the files that model them:
--
--   src/kernel/event.c, include/event.h   Event.antt: `q`, `q_head` and `q_tail` are the record
--     `EventQueue`; `event_init`, `event_push`, `event_poll` and `event_pending` keep their names.
--     `run` is any interleaving of pushes and polls: a poll runs with interrupts off, and a push in an
--     interrupt, so that neither is cut in two.
--   src/mm/pmm.c, include/pmm.h           Pmm.antt: the static data is the record `Pmm`, with the
--     memory that `bitmap` leads to as a list of bytes; the loop of `pmm_alloc_frame` is `alloc_loop`.
--     Pmm/Init.antt has `pmm_init`, on the memory map that the boot loader answers with.
--   src/mm/vmm.c, include/vmm.h           Vmm.antt: the static data is the record `Vmm`, with the words
--     of the page tables by address, the frame manager, and the addresses that `invlpg` is given. A
--     function is a command that fails where it follows a NULL table.
--   src/mm/heap.c, include/heap.h         Heap.antt and Heap/Pages.antt: the record `Heap` holds the
--     static data, the block headers by address, the bytes behind them and the interrupt flag. The
--     headers are kept apart from the bytes: what a write of a header does to the bytes of free memory
--     that it takes is not modelled, and the theorems speak of the bytes of blocks that are given out.
--     A function is a command on it, which fails where it follows a pointer to no header.
--   src/lib/string.c, include/string.h    Str.antt: memory is a function from addresses to bytes. The
--     loops on strings are recursive on fuel, which the theorems bound by the length of the string.
--   src/drivers/keyboard.c                Keyboard.antt: `keyboard_handler` takes the byte that it reads
--     from the port; it pushes to the queue of Event.antt. `read_line` takes the characters that
--     `keyboard_getchar` gives, and waits where there are no more.
--   src/drivers/mouse.c                   Mouse.antt: `mouse_irq` takes the two bytes that it reads; it
--     pushes to the queue of Event.antt, and ends by `pic_send_eoi`. A sum of `int` is a sum of integers:
--     the size of the screen that `Mouse.Screen.IsValid` asks for keeps it in range.
--   include/io.h, and what sets devices up  Ports.antt: `mouse_init`, `keyboard_init` and `pic_remap` on
--     devices that answer each read of a port in any way; the record `Io` keeps the bytes written. The
--     waits for the mouse controller have their 100000 rounds; the loop that empties its buffer is
--     recursive on rounds, and its theorems say when they are enough.
--   src/cpu/pic.c                         Pic.antt: the mask registers as two bytes; the signal that
--     ends an interrupt as writes to ports.
--   src/cpu/idt.c, include/idt.h          Idt.antt: the table as a list of entries.
--   src/cpu/exceptions.c                  Idt/Exceptions.antt: the messages of the 32 handlers as data,
--     and `exceptions_install` on the addresses that the linker gives them.
--   src/cpu/timer.c, include/timer.h      Timer.antt: the count of ticks and the divisor. The loop of
--     `sleep` is recursive on the list of the ticks that have come at each of its wake-ups.
--   src/gui/gfx.c, include/gfx.h          Gfx.antt: the static data is the record `Gfx`, with the memory
--     as a function from addresses to 32-bit words, so that the pitch is a multiple of 4. The loops
--     over rows of pixels are `put_row` and `put_rows`, with the value of a pixel as a function.
--   include/font8x16.h                    Gfx/Font.antt: the glyphs, in four files of 64.
--   src/drivers/fb.c, include/fb.h        Console.antt: the cursor and the colours, on top of `Gfx`. The
--     loop of `putchar` that scrolls is recursive on fuel; 2 rounds are enough on a screen with a cell.
--   src/drivers/serial.c                  Serial.antt: the port as the bytes that it answers with and those
--     that are written to it; a loop that waits for it goes on to the next answer.
--   src/cpu/panic.c                       Panic.antt: the texts of the report, printed on the console.
--   src/kernel/settings.c, lang.c         Settings.antt: the settings and the table of messages.
--   src/kernel/kernel.c                   Shell.antt: the choice of a command, and the commands on the
--     settings. The commands on the other parts are a parameter, the record `Others`; a string is the
--     list of its characters, and `streq` and `str_starts_with` are what Str.antt shows of them.
--     Shell/Tools.antt has the commands mem and events; `event_loop` is the loop of the latter, with
--     what interrupts push before each of its polls.
--   src/sched/sched.c, include/sched.h    Sched.antt: the tasks by address, in a circle; the heap is a
--     parameter, the record `Allocator`. `schedule` ends with the switch that it asks for. The walks
--     round the circle are recursive on rounds, one for each task. In `Queue` the circle is the task
--     that runs and those that wait, in the order of their turns.
--   src/cpu/switch.asm                    Sched/Switch.antt: `switch_context` as the six registers that
--     it pushes and pops, and `task_trampoline` up to its call.
--   include/irqlock.h                     Base/Irq.antt: `irq_save` and `irq_restore`.
--
-- Two relations put calls together: `Heap.History.Call` is one call of the heap by callers that free and
-- resize only what they hold, and `Sched.History.Reach` the states that the calls of the scheduler lead
-- to, with the queue that they describe.
--
-- The heap takes its frames from the frame manager and maps them by `vmm_map`: the record `PageSource`
-- is that interface, a parameter of the functions that may grow the heap. It promises nothing: the
-- theorems hold whatever frames it gives, and when it has none. Mapping a page is `none` where
-- `vmm_map` faults, as it does where no frame is left for its tables; a call that grows the heap faults
-- with it, and the theorems say so.
--
-- Numbers are natural numbers with the wrap of their width written out (`add64`, `sub64`, `% 2 ^ 32`).
-- The walks along the list of blocks are recursive on rounds, one for each header that the heap has
-- room for (`rounds`); that these are enough is part of the theorems about the walks, which have them
-- end with a result. The loops on frames and pages are recursive on the number of rounds left.
--
-- The answers of the boot loader (the memory map, the offset of the direct map, the framebuffer) are
-- parameters. A memory map is as the boot loader promises it in `IsMap`: usable entries are whole
-- pages, end below 2^64 and do not overlap; nothing is asked of the others.
--
-- Not modelled: the rest of the limine boot protocol header, which is a copy of another project's; and
-- of kernel.c the commands mouse (but for the pointer and the lamps that it draws) and threads, and the
-- order in which kmain starts the parts.
pub mod Base
pub mod Event
pub mod Pmm
pub mod Heap
pub mod Str
pub mod Keyboard
pub mod Pic
pub mod Idt
pub mod Mouse
pub mod Ports
pub mod Sched
pub mod Vmm
pub mod Gfx
pub mod Console
pub mod Timer
pub mod Serial
pub mod Settings
pub mod Shell
pub mod Panic
