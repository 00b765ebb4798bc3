-- ===== src/Keyboard/Tests.antt =====
-- The keyboard on concrete input.
use arc_monark.Base.{ℕ, ◌≡◌, refl, true, false, some, List, [], ◌∷◌, arith, get_or, replicate}
use arc_monark.Event.{zero_event}
use arc_monark.Keyboard.{Keyboard, scancode_ascii, is_letter, edit, read_loop, read_line}
use arc_monark.Keyboard.Ring.{IsValid}

abbrev quiet : Keyboard
quiet = record {
  shift_down = true;
  caps_lock = false;
  kbd_buf = replicate 256 0;
  kbd_head = 255;
  kbd_tail = 3;
  events = record { q = replicate 256 zero_event; q_head = 0; q_tail = 1 };
  port_writes = [];
}

quiet-IsValid : IsValid quiet
quiet-IsValid = record {
  slots = refl;
  head_in = omega arith;
  tail_in = omega arith;
  queue = record { slots = refl; head_in = omega arith; tail_in = omega arith };
}

-- "ab", a backspace, "c" and the end of the line
abbrev keys : List ℕ
keys = 97 ∷ 98 ∷ 8 ∷ 99 ∷ 10 ∷ []

line_ac :
    read_line 3 keys (1 ∷ 2 ∷ 3 ∷ [])
    ≡ some (record { buf = 97 ∷ 99 ∷ 0 ∷ []; len = 2; echo = 10 ∷ 99 ∷ 8 ∷ 98 ∷ 97 ∷ [] })
unfolding read_line read_loop edit
line_ac = refl

a_is_letter : is_letter (get_or scancode_ascii 30 0) ≡ true
unfolding is_letter
a_is_letter = refl
