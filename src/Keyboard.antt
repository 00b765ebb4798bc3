-- ===== src/Keyboard.antt =====
-- src/drivers/keyboard.c and include/keyboard.h: the keyboard interrupt, the ring of characters that
-- it fills, and the line editor that reads them. Its definitions are here; `Keyboard.Codes` is about
-- the tables, `Keyboard.Ring` about the ring, `Keyboard.ReadLine` about `read_line`.
pub mod Codes
pub mod Ring
pub mod ReadLine
mod Tests
use arc_monark.Base.{
  ℕ, ◌+◌, ◌-◌, ◌%◌, ◌^◌, bit_and, Bool, true, false, not, ◌&&◌, ◌||◌, Option, none, some, List, [],
  ◌∷◌, ltb, leb, ◌==◌, if◌then◌else◌, get_or, set,
}
use arc_monark.Event.{Event, EventQueue, zero_event, ev_key_up, ev_key_down, event_push}

-- entries that the initialisers leave out are 0
abbrev pub scancode_ascii : List ℕ
scancode_ascii =
    0 ∷ 27 ∷ 49 ∷ 50 ∷ 51 ∷ 52 ∷ 53 ∷ 54 ∷ 55 ∷ 56 ∷ 57 ∷ 48 ∷ 45 ∷ 61 ∷ 8 ∷ 9 ∷ 113 ∷ 119 ∷ 101
    ∷ 114 ∷ 116 ∷ 121 ∷ 117 ∷ 105 ∷ 111 ∷ 112 ∷ 91 ∷ 93 ∷ 10 ∷ 0 ∷ 97 ∷ 115 ∷ 100 ∷ 102 ∷ 103 ∷ 104
    ∷ 106 ∷ 107 ∷ 108 ∷ 59 ∷ 39 ∷ 96 ∷ 0 ∷ 92 ∷ 122 ∷ 120 ∷ 99 ∷ 118 ∷ 98 ∷ 110 ∷ 109 ∷ 44 ∷ 46 ∷ 47
    ∷ 0 ∷ 42 ∷ 0 ∷ 32 ∷ []

abbrev pub scancode_ascii_shift : List ℕ
scancode_ascii_shift =
    0 ∷ 27 ∷ 33 ∷ 64 ∷ 35 ∷ 36 ∷ 37 ∷ 94 ∷ 38 ∷ 42 ∷ 40 ∷ 41 ∷ 95 ∷ 43 ∷ 8 ∷ 9 ∷ 81 ∷ 87 ∷ 69 ∷ 82
    ∷ 84 ∷ 89 ∷ 85 ∷ 73 ∷ 79 ∷ 80 ∷ 123 ∷ 125 ∷ 10 ∷ 0 ∷ 65 ∷ 83 ∷ 68 ∷ 70 ∷ 71 ∷ 72 ∷ 74 ∷ 75 ∷ 76
    ∷ 58 ∷ 34 ∷ 126 ∷ 0 ∷ 124 ∷ 90 ∷ 88 ∷ 67 ∷ 86 ∷ 66 ∷ 78 ∷ 77 ∷ 60 ∷ 62 ∷ 63 ∷ 0 ∷ 42 ∷ 0 ∷ 32
    ∷ []

abbrev pub sc_lshift_down : ℕ
sc_lshift_down = 0x2A

abbrev pub sc_rshift_down : ℕ
sc_rshift_down = 0x36

abbrev pub sc_lshift_up : ℕ
sc_lshift_up = 0xAA

abbrev pub sc_rshift_up : ℕ
sc_rshift_up = 0xB6

abbrev pub sc_caps_down : ℕ
sc_caps_down = 0x3A

abbrev pub kbd_buf_size : ℕ
kbd_buf_size = 256

-- The static data of keyboard.c; the event queue that the handler pushes to; and the bytes that it
-- has written to ports, by port, the last one in front.
pub record Keyboard : Type 0 where
  pub shift_down : Bool
  pub caps_lock : Bool
  pub kbd_buf : List ℕ
  pub kbd_head : ℕ
  pub kbd_tail : ℕ
  pub events : EventQueue
  pub port_writes : List (ℕ × ℕ)

abbrev pub xor : Bool → Bool → Bool
xor a b = if a then not b else b

pub is_letter : ℕ → Bool
is_letter c = leb 97 c && leb c 122

-- the three branches on the keys that modify others
pub update_modifiers : ℕ → Keyboard → Keyboard
update_modifiers sc s =
    if (sc == sc_lshift_down) || (sc == sc_rshift_down)
    then record s { shift_down = true }
    else (if (sc == sc_lshift_up) || (sc == sc_rshift_up)
        then record s { shift_down = false }
        else (if sc == sc_caps_down then record s { caps_lock = not s.caps_lock } else s))

-- the character of a scan code, by the state of the two modifiers
pub translate : Bool → Bool → ℕ → ℕ
unfolding is_letter
translate shift caps code =
    let plain : ℕ = get_or scancode_ascii code 0 in
    let shifted : ℕ = get_or scancode_ascii_shift code 0 in
    if caps && is_letter plain
    then (if xor caps shift then shifted else plain)
    else (if shift then shifted else plain)

-- the character into the ring, if there is room
pub store_char : ℕ → Keyboard → Keyboard
store_char c s =
    let next : ℕ = (s.kbd_head + 1) % 2 ^ 32 % kbd_buf_size in
    if next == s.kbd_tail
    then s
    else record s { kbd_buf = set s.kbd_buf s.kbd_head c; kbd_head = next }

pub key_event : ℕ → ℕ → Event
key_event sc c = record zero_event {
  kind = if bit_and sc 0x80 == 0 then ev_key_down else ev_key_up;
  ch = c;
  scancode = bit_and sc 0x7F;
}

-- what the handler does with a byte that is not the prefix
pub handle_code : ℕ → Keyboard → Keyboard
unfolding update_modifiers
handle_code sc s =
    let s1 : Keyboard = update_modifiers sc s in
    let c : ℕ = translate s1.shift_down s1.caps_lock (bit_and sc 0x7F) in
    let s2 : Keyboard = if (bit_and sc 0x80 == 0) && not (c == 0) then store_char c s1 else s1 in
    record s2 { events = event_push (key_event sc c) s2.events }

-- The byte is what `inb(0x60)` gives.
pub keyboard_handler : ℕ → Keyboard → Keyboard
keyboard_handler sc s =
    let s1 : Keyboard = if sc == 0xE0 then s else handle_code sc s in
    record s1 { port_writes = (0x20, 0x20) ∷ s1.port_writes }

-- `none` where the function waits for an interrupt
pub keyboard_getchar : Keyboard → Option (ℕ × Keyboard)
keyboard_getchar s =
    if s.kbd_head == s.kbd_tail
    then none
    else some (
      get_or s.kbd_buf s.kbd_tail 0,
      record s { kbd_tail = (s.kbd_tail + 1) % 2 ^ 32 % kbd_buf_size },
    )

pub keyboard_haskey : Keyboard → Bool
keyboard_haskey s = not (s.kbd_head == s.kbd_tail)

-- The local state of `read_line`, with what it has put on the screen, the last character in front.
pub record Line : Type 0 where
  pub buf : List ℕ
  pub len : ℕ
  pub echo : List ℕ

-- one turn of the loop of `read_line` for a character that is not '\n'
pub edit : ℕ → ℕ → Line → Line
edit max c l =
    if c == 8
    then (if ltb 0 l.len then record l { len = l.len - 1; echo = 8 ∷ l.echo } else l)
    else (if ltb (l.len + 1) max
        then record { buf = set l.buf l.len c; len = l.len + 1; echo = c ∷ l.echo }
        else l)

-- The loop, for the characters that `keyboard_getchar` gives; `none` where it waits for more. `max`
-- is not negative.
pub read_loop : ℕ → List ℕ → Line → Option Line
read_loop max [] l = none
read_loop max (c ∷ keys) l =
    let rest = read_loop max keys (edit max c l) in
    if c == 10 then some (record l { buf = set l.buf l.len 0; echo = 10 ∷ l.echo }) else rest

pub read_line : ℕ → List ℕ → List ℕ → Option Line
read_line max keys buf = read_loop max keys (record { buf = buf; len = 0; echo = [] })
