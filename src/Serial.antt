-- ===== src/Serial.antt =====
-- src/drivers/serial.c and include/serial.h: the serial port, and numbers in hexadecimal, which
-- `print_hex` of src/cpu/panic.c writes as well. Its definitions are here; `Serial.Sent` is about what
-- the port sends.
pub mod Sent
mod Tests
use arc_monark.Base.{
  ℕ, zero, suc, ◌+◌, ◌*◌, ◌/◌, ◌^◌, bit_and, Option, none, some, List, [], ◌∷◌, ◌++◌, ◌==◌,
  if◌then◌else◌, get_or, set,
}
use arc_monark.Base.Text.{codes}

abbrev pub com1 : ℕ
com1 = 0x3F8

-- The port: the bytes that `inb` is going to read, and those that were written with their ports, the
-- last one first.
pub record Uart : Type 0 where
  pub reads : List ℕ
  pub writes : List (ℕ × ℕ)

abbrev pub outb : ℕ → ℕ → Uart → Uart
outb port v u = record u { writes = (port, v) ∷ u.writes }

-- `while (!tx_empty()) {}` on what the port answers; `none` is a loop that waits for ever
unfoldable pub wait_empty : List ℕ → Option (List ℕ)
wait_empty [] = none
wait_empty (r ∷ reads) =
    let rest = wait_empty reads in if bit_and r 0x20 == 0 then rest else some reads

-- `while (!tx_empty()) {} outb(COM1, v);`
unfoldable pub send : ℕ → Uart → Option Uart
send v u = elim (wait_empty u.reads) [
  | none ↦ none
  | some reads ↦ some (outb com1 v (record u { reads = reads }))
]

unfoldable pub serial_putc : ℕ → Uart → Option Uart
serial_putc c u = if c == 10 then elim (send 13 u) [ none ↦ none | some w ↦ send c w ] else send c u

-- on the characters before the end of the string
unfoldable pub serial_write : List ℕ → Uart → Option Uart
serial_write [] u = some u
serial_write (c ∷ cs) u = elim (serial_putc c u) [ none ↦ none | some w ↦ serial_write cs w ]

-- `d[(v >> i) & 0xF]`
unfoldable pub hex_digit : ℕ → ℕ
hex_digit n = get_or (codes "0123456789ABCDEF") n 0

-- the digits of the loop on `i`, which is 4 times the number of digits behind
unfoldable pub hex_digits : ℕ → ℕ → List ℕ
hex_digits zero v = []
hex_digits (suc k) v = hex_digit (bit_and (v / 2 ^ (k * 4)) 0xF) ∷ hex_digits k v

unfoldable pub serial_write_hex : ℕ → Uart → Option Uart
serial_write_hex v u = elim (serial_write (codes "0x") u) [
  | none ↦ none
  | some w ↦ serial_write (hex_digits 16 v) w
]

-- the text that `print_hex` of src/cpu/panic.c makes in its buffer
pub hex_buffer : ℕ → List ℕ
hex_buffer val = codes "0x" ++ hex_digits 16 val

-- `serial_init`: the writes, the reads of the test, and the result
pub serial_init : Uart → Option (ℕ × Uart)
serial_init u =
    let set : Uart = outb (com1 + 0) 0xAE (
      outb (com1 + 4) 0x1E (
        outb (com1 + 4) 0x0B (
          outb (com1 + 2) 0xC7 (
            outb (com1 + 3) 0x03 (
              outb (com1 + 1) 0x00
                (outb (com1 + 0) 0x03 (outb (com1 + 3) 0x80 (outb (com1 + 1) 0x00 u)))))))) in
    elim set.reads [
      | [] ↦ none
      | r ∷ reads ↦
          let read : Uart = record set { reads = reads } in
          if r == 0xAE then some (0, outb (com1 + 4) 0x0F read) else some (1, read)
    ]
