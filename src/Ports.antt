-- ===== src/Ports.antt =====
-- include/io.h: reading and writing the ports of devices that answer in any way, and the parts of
-- src/cpu/pic.c, src/drivers/keyboard.c and src/drivers/mouse.c that set the devices up.
-- `Ports.Steps` and `Ports.Sent` are about what they send.
pub mod Steps
pub mod Sent
use arc_monark.Base.{
  ℕ, zero, suc, ◌+◌, ◌-◌, ◌%◌, ◌^◌, bit_and, bit_or, true, false, Option, none, some, List, ◌∷◌,
  ltb, leb, ◌==◌, if◌then◌else◌,
}
use arc_monark.Pmm.{clear_bit}
use arc_monark.Pic.{PortWrite, pic1_command, pic2_command}
use arc_monark.Idt.{IdtEntry, idt_int_gate, idt_set_gate}
use arc_monark.Mouse.{Mouse, mouse_start}

-- What the devices answer, by port and by how many reads there were before; how many there were; and
-- the bytes that were written, the last one in front.
pub record Io : Type 0 where
  pub answers : ℕ → ℕ → ℕ
  pub reads : ℕ
  pub writes : List PortWrite

pub outb : ℕ → ℕ → Io → Io
outb port val io = record io { writes = (port, val) ∷ io.writes }

-- a byte
pub inb : ℕ → Io → ℕ × Io
inb port io = (io.answers port io.reads % 2 ^ 8, record io { reads = io.reads + 1 })

pub io_wait : Io → Io
io_wait io = outb 0x80 0 io

abbrev pub pic1_data : ℕ
pic1_data = 0x21

abbrev pub pic2_data : ℕ
pic2_data = 0xA1

-- `outb(port, inb(port) & ~(1 << irq))`
pub irq_clear_mask : ℕ → Io → Io
irq_clear_mask irq io =
    let port : ℕ = if ltb irq 8 then pic1_data else pic2_data in
    let bit : ℕ = if leb 8 irq then irq - 8 else irq in
    let (mask, io') = inb port io in outb port (clear_bit mask bit) io'

-- `outb(port, val); io_wait();`
pub outb_wait : ℕ → ℕ → Io → Io
outb_wait port val io = io_wait (outb port val io)

pub pic_remap : Io → Io
pic_remap io =
    let io1 : Io = outb_wait pic2_command 0x11 (outb_wait pic1_command 0x11 io) in
    let io2 : Io = outb_wait pic2_data 0x28 (outb_wait pic1_data 0x20 io1) in
    let io3 : Io = outb_wait pic2_data 0x02 (outb_wait pic1_data 0x04 io2) in
    let io4 : Io = outb_wait pic2_data 0x01 (outb_wait pic1_data 0x01 io3) in
    outb pic2_data 0xFF (outb pic1_data 0xFF io4)

abbrev pub ps2_data : ℕ
ps2_data = 0x60

-- for reading the status, and for writing a command
abbrev pub ps2_status : ℕ
ps2_status = 0x64

-- `while (inb(0x64) & 1) inb(0x60);`, with the rounds that are left
pub drain : ℕ → Io → Option Io
drain zero io = none
drain (suc k) io =
    let (status, io1) = inb ps2_status io in
    let (byte, io2) = inb ps2_data io1 in
    elim (bit_and status 1 == 0) [ true ↦ some io1 | false ↦ drain k io2 ]

-- the loop of `ps2_wait_write`, with the rounds that are left
pub wait_write : ℕ → Io → Io
wait_write zero io = io
wait_write (suc k) io =
    let (status, io1) = inb ps2_status io in
    elim (bit_and status 0x02 == 0) [ true ↦ io1 | false ↦ wait_write k io1 ]

-- and that of `ps2_wait_read`
pub wait_read : ℕ → Io → Io
wait_read zero io = io
wait_read (suc k) io =
    let (status, io1) = inb ps2_status io in
    elim (bit_and status 0x01 == 0) [ true ↦ wait_read k io1 | false ↦ io1 ]

abbrev pub wait_rounds : ℕ
wait_rounds = 100000

-- `ps2_wait_write(); outb(port, val);`
pub send : ℕ → ℕ → Io → Io
send port val io = outb port val (wait_write wait_rounds io)

pub mouse_cmd : ℕ → Io → Io
mouse_cmd cmd io = send ps2_data cmd (send ps2_status 0xD4 io)

pub mouse_read : Io → ℕ × Io
mouse_read io = inb ps2_data (wait_read wait_rounds io)

-- `status |= 0x02; status &= ~0x20;`
pub with_mouse : ℕ → ℕ
with_mouse status = bit_and (bit_or status 0x02) 0xDF

-- `mouse_init` from the first command on
pub enable_mouse : Io → Io
enable_mouse io =
    let (status, io1) = mouse_read (send ps2_status 0x20 (send ps2_status 0xA8 io)) in
    let io2 : Io = send ps2_data (with_mouse status) (send ps2_status 0x60 io1) in
    let (ack1, io3) = mouse_read (mouse_cmd 0xF6 io2) in
    let (ack2, io4) = mouse_read (mouse_cmd 0xF4 io3) in io4

-- `mouse_init`, with the address of `mouse_irq`
pub mouse_init : ℕ → ℕ → ℕ → ℕ → Mouse × List IdtEntry × Io → Option (Mouse × List IdtEntry × Io)
mouse_init rounds irq_at screen_w screen_h (m, idt, io) = elim (drain rounds io) [
  | none ↦ none
  | some io1 ↦ some (
    mouse_start screen_w screen_h m,
    idt_set_gate 0x2C irq_at idt_int_gate idt,
    irq_clear_mask 12 (irq_clear_mask 2 (enable_mouse io1)),
  )
]

-- `keyboard_init`, with the address of `keyboard_handler`
pub keyboard_init : ℕ → ℕ → List IdtEntry × Io → Option (List IdtEntry × Io)
keyboard_init rounds handler_at (idt, io) = elim (drain rounds io) [
  | none ↦ none
  | some io1 ↦ some (idt_set_gate 0x21 handler_at idt_int_gate idt, irq_clear_mask 1 io1)
]
