-- ===== src/Panic.antt =====
-- src/cpu/panic.c and include/panic.h: the report of a panic, on the console.
mod Report
use arc_monark.Base.{ℕ, Option, none, some, List, [], ◌∷◌, ◌++◌}
use arc_monark.Base.Text.{codes}
use arc_monark.Console.{Console, set_color, clear_screen, print}
use arc_monark.Serial.{hex_buffer}

-- `struct interrupt_frame`
pub record InterruptFrame : Type 0 where
  pub rip : ℕ
  pub cs : ℕ
  pub rflags : ℕ
  pub rsp : ℕ
  pub ss : ℕ

-- calls of `print`, one after the other
unfoldable pub print_all : ℕ → List (List ℕ) → Console → Option Console
print_all k [] s = some s
print_all k (text ∷ texts) s = elim (print k text s) [ none ↦ none | some t ↦ print_all k texts t ]

-- a line of the report: its name, the number by `print_hex`, and what follows
abbrev field : List ℕ → ℕ → List ℕ → List (List ℕ)
field name value end = name ∷ hex_buffer value ∷ end ∷ []

-- what `panic` prints for a message, a frame, an error code and the register cr2
abbrev pub report : List ℕ → InterruptFrame → ℕ → ℕ → List (List ℕ)
report msg frame error_code cr2 =
    ((codes "*** KERNEL PANIC ***" ++ 10 ∷ 10 ∷ []) ∷ msg ∷ (10 ∷ 10 ∷ []) ∷ [])
    ++ field (codes "RIP    = ") frame.rip (10 ∷ [])
    ++ field (codes "CS     = ") frame.cs (10 ∷ [])
    ++ field (codes "RFLAGS = ") frame.rflags (10 ∷ [])
    ++ field (codes "RSP    = ") frame.rsp (10 ∷ [])
    ++ field (codes "SS     = ") frame.ss (10 ∷ [])
    ++ field (codes "ERRCODE= ") error_code (10 ∷ [])
    ++ field (codes "CR2    = ") cr2 (codes "  (sadece #PF icin)" ++ 10 ∷ 10 ∷ [])
    ++ (codes "Sistem donduruldu." ++ 10 ∷ []) ∷ []

-- `panic` up to its halt
unfoldable pub panic : ℕ → List ℕ → InterruptFrame → ℕ → ℕ → Console → Option Console
panic k msg frame error_code cr2 s =
    print_all k (report msg frame error_code cr2) (clear_screen (set_color 0xFFFFFFFF 0x00AA0000 s))
