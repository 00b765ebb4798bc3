-- ===== src/Keyboard/Ring.antt =====
-- The interrupt of src/drivers/keyboard.c: the ring of characters, and the events.
use arc_monark.Base.{
  ℕ, ◌+◌, ◌%◌, ◌^◌, ◌<◌, bit_and, ◌≡◌, refl, ap, ◌∙◌, inl, inr, Bool, true, false, not, ◌&&◌, ◌||◌,
  none, some, ◌∷◌, arith, ◌==◌, if◌then◌else◌, Bool-cases, length, length-set,
}
use arc_monark.Event.{event_push}
use arc_monark.Event.Ring.{IsValid as IsQueue, event_push-IsValid}
use arc_monark.Event.Refine.{contents, spec_push, event_push-spec_push}
use arc_monark.Keyboard.{
  Keyboard, kbd_buf_size, update_modifiers, translate, store_char, key_event, handle_code,
  keyboard_handler, keyboard_getchar, keyboard_haskey,
}

-- Both rings are whole, and their indices are slots.
pub record IsValid (s : Keyboard) : Type 0 where
  pub slots : length s.kbd_buf ≡ kbd_buf_size
  pub head_in : s.kbd_head < kbd_buf_size
  pub tail_in : s.kbd_tail < kbd_buf_size
  pub queue : IsQueue s.events

update_modifiers-IsValid : {s : Keyboard} (sc : ℕ) → IsValid s → IsValid (update_modifiers sc s)
unfolding update_modifiers
update_modifiers-IsValid {s} sc v = elim (Bool-cases ((sc == 0x2A) || (sc == 0x36))) [
  | inl e ↦ rw e (same v)
  | inr ne ↦ elim (Bool-cases ((sc == 0xAA) || (sc == 0xB6))) [
    | inl e ↦ rw (ne, e) (same v)
    | inr ne' ↦ elim (Bool-cases (sc == 0x3A)) [
      | inl e ↦ rw (ne, ne', e) (same v)
      | inr ne'' ↦ rw (ne, ne', ne'') v
    ]
  ]
]
  where
    same :
        {shift caps : Bool}
        → IsValid s
        → IsValid (record s { shift_down = shift; caps_lock = caps })
    same v = record { slots = v.slots; head_in = v.head_in; tail_in = v.tail_in; queue = v.queue }

store_char-IsValid : {s : Keyboard} (c : ℕ) → IsValid s → IsValid (store_char c s)
unfolding store_char
store_char-IsValid {s} c v =
    elim (Bool-cases ((s.kbd_head + 1) % 2 ^ 32 % kbd_buf_size == s.kbd_tail)) [
      | inl full ↦ rw full v
      | inr room ↦ rw room (record {
        slots = length-set s.kbd_buf s.kbd_head c ∙ v.slots;
        head_in = omega arith;
        tail_in = v.tail_in;
        queue = v.queue;
      })
    ]

with_event :
    {s : Keyboard} (sc c : ℕ)
    → IsValid s
    → IsValid (record s { events = event_push (key_event sc c) s.events })
with_event {s} sc c v = record {
  slots = v.slots;
  head_in = v.head_in;
  tail_in = v.tail_in;
  queue = event_push-IsValid (key_event sc c) v.queue;
}

maybe_store :
    {s : Keyboard} (b : Bool) (c : ℕ) → IsValid s → IsValid (if b then store_char c s else s)
maybe_store true c v = store_char-IsValid c v
maybe_store false c v = v

handle_code-IsValid : {s : Keyboard} (sc : ℕ) → IsValid s → IsValid (handle_code sc s)
unfolding handle_code
handle_code-IsValid {s} sc v =
    with_event {s = _} sc _ (maybe_store {s = _} _ _ (update_modifiers-IsValid sc v))

with_write :
    {s : Keyboard} (w : ℕ × ℕ) → IsValid s → IsValid (record s { port_writes = w ∷ s.port_writes })
with_write w v = record {
  slots = v.slots;
  head_in = v.head_in;
  tail_in = v.tail_in;
  queue = v.queue;
}

-- The interrupt keeps both rings whole and their indices inside, whatever byte the keyboard sends.
pub keyboard_handler-IsValid : {s : Keyboard} (sc : ℕ) → IsValid s → IsValid (keyboard_handler sc s)
unfolding keyboard_handler
keyboard_handler-IsValid {s} sc v = elim (Bool-cases (sc == 0xE0)) [
  | inl e ↦ rw e (with_write {s = s} (0x20, 0x20) v)
  | inr ne ↦ rw ne (with_write {s = handle_code sc s} (0x20, 0x20) (handle_code-IsValid sc v))
]

update_modifiers-events : (sc : ℕ) (s : Keyboard) → (update_modifiers sc s).events ≡ s.events
unfolding update_modifiers
update_modifiers-events sc s = ground arith

store_char-events :
    (c : ℕ) (b : Bool) (s : Keyboard) → (if b then store_char c s else s).events ≡ s.events
unfolding store_char
store_char-events c b s = ground arith

-- the character that the interrupt reports
abbrev pub char_of : ℕ → Keyboard → ℕ
char_of sc s =
    let s1 : Keyboard = update_modifiers sc s in
    translate s1.shift_down s1.caps_lock (bit_and sc 0x7F)

handle_code-events :
    (sc : ℕ) (s : Keyboard)
    → (handle_code sc s).events ≡ event_push (key_event sc (char_of sc s)) s.events
unfolding handle_code
handle_code-events sc s = ap (event_push (key_event sc (char_of sc s))) (
    store_char-events (char_of sc s) ((bit_and sc 0x80 == 0) && not (char_of sc s == 0))
      (update_modifiers sc s)
    ∙ update_modifiers-events sc s)

-- In a valid keyboard, each byte but the prefix adds one event to the queue, a key that goes down
-- or up, with its code and its character; the prefix adds none.
pub keyboard_handler-contents :
    {s : Keyboard} (sc : ℕ)
    → IsValid s
    → contents (keyboard_handler sc s).events ≡ (
        if sc == 0xE0
        then contents s.events
        else spec_push (key_event sc (char_of sc s)) (contents s.events))
unfolding keyboard_handler
keyboard_handler-contents {s} sc v = elim (Bool-cases (sc == 0xE0)) [
  | inl e ↦ rw e refl
  | inr ne ↦ rw ne (
      ap contents (handle_code-events sc s)
      ∙ event_push-spec_push v.queue (key_event sc (char_of sc s)))
]

-- `keyboard_haskey` says whether the next `keyboard_getchar` returns at once.
pub keyboard_haskey-getchar :
    (s : Keyboard) → keyboard_haskey s ≡ elim (keyboard_getchar s) [ none ↦ false | some r ↦ true ]
unfolding keyboard_haskey keyboard_getchar
keyboard_haskey-getchar s = ground arith
