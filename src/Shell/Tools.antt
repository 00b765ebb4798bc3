-- ===== src/Shell/Tools.antt =====
-- The commands mem and events of src/kernel/kernel.c.
use arc_monark.Base.{
  ℕ, zero, suc, ◌-◌, ◌*◌, ◌/◌, ◌%◌, ◌^◌, Bool, true, false, ◌&&◌, Option, none, some, List, [], ◌∷◌,
  ◌++◌, ◌==◌, if◌then◌else◌,
}
use arc_monark.Base.Irq.{Flags}
use arc_monark.Base.Int.{ℤ, pos, negsuc}
use arc_monark.Base.Text.{codes}
use arc_monark.Str.{digits_loop}
use arc_monark.Pmm.{Pmm, page_size, pmm_total_frames, pmm_used_frames, pmm_free_frames}
use arc_monark.Event.{
  EventType, ev_none, ev_key_down, ev_key_up, ev_mouse_down, ev_mouse_up, ev_mouse_move, Event,
  EventQueue, event_push, event_poll,
}
use arc_monark.Keyboard.{Keyboard, keyboard_getchar}
use arc_monark.Shell.{Shell, say, new_line}

infixl 5 ◌>>=◌
abbrev pub ◌>>=◌ : {A B : Type 0} → Option A → (A → Option B) → Option B
◌>>=◌ m f = elim m [ none ↦ none | some a ↦ f a ]

-- `pmm_free_frames() * PAGE_SIZE / (1024 * 1024)`
unfoldable pub free_mib : Pmm → ℕ
free_mib p = pmm_free_frames p * page_size % 2 ^ 64 / (1024 * 1024)

-- `(uint16_t)v` of an `int16_t`
unfoldable pub uint16 : ℤ → ℕ
uint16 (pos n) = n % 2 ^ 16
uint16 (negsuc n) = 2 ^ 16 - 1 - n % 2 ^ 16

-- `e.type == EV_KEY_DOWN && e.scancode == 0x01`
abbrev pub is_key_down : EventType → Bool
is_key_down ev_key_down = true
is_key_down kind = false

unfoldable pub is_escape : Event → Bool
is_escape e = is_key_down e.kind && (e.scancode == 0x01)

-- what interrupts push between two polls
unfoldable pub push_all : List Event → EventQueue → EventQueue
push_all [] q = q
push_all (e ∷ es) q = push_all es (event_push e q)

-- `while (keyboard_haskey()) (void)keyboard_getchar();`
unfoldable pub drain_keys : ℕ → Keyboard → Option Keyboard
drain_keys zero b = none
drain_keys (suc r) b = elim (keyboard_getchar b) [ none ↦ some b | some (c, b') ↦ drain_keys r b' ]

module _ {S : Type 0} where
  -- `print(u64_to_dec(v, buf));`
  unfoldable pub say_number : ℕ → ℕ → Shell S → Option (Shell S)
  say_number k v s =
      if v == 0
      then say k (48 ∷ []) s
      else elim (digits_loop 21 v []) [ none ↦ none | some text ↦ say k text s ]

  -- `print(label); print(u64_to_dec(v, buf)); putchar('\n');`
  unfoldable pub say_count : ℕ → List ℕ → ℕ → Shell S → Option (Shell S)
  say_count k label v s = do s1 ← say k label s; s2 ← say_number k v s1; new_line k s2

  -- with the frame manager, and what `heap_used_bytes` returns
  unfoldable pub cmd_mem : ℕ → Pmm → ℕ → Shell S → Option (Shell S)
  cmd_mem k p heap_used s = do
    s1 ← say_count k (codes "total frames : ") (pmm_total_frames p) s
    s2 ← say_count k (codes "used  frames : ") (pmm_used_frames p) s1
    s3 ← say_count k (codes "free  frames : ") (pmm_free_frames p) s2
    s4 ← say_count k (codes "free  ram MiB: ") (free_mib p) s3
    say_count k (codes "heap  used  B: ") heap_used s4

  -- the three branches of `cmd_events` on an event that does not end it
  unfoldable pub say_key : ℕ → Event → Shell S → Option (Shell S)
  say_key k e s = do
    s1 ← say k (codes "tus  : '") s
    s2 ← say k (if e.ch == 0 then codes "?" else e.ch ∷ []) s1
    s3 ← say k (codes "'  sc=") s2
    s4 ← say_number k e.scancode s3
    new_line k s4

  unfoldable pub say_down : ℕ → Event → Shell S → Option (Shell S)
  say_down k e s = do
    s1 ← say k (codes "fare down btn=") s
    s2 ← say_number k e.button s1
    s3 ← say k (codes " @") s2
    s4 ← say_number k (uint16 e.x) s3
    s5 ← say k (codes ",") s4
    s6 ← say_number k (uint16 e.y) s5
    new_line k s6

  unfoldable pub say_up : ℕ → Event → Shell S → Option (Shell S)
  say_up k e s = say_count k (codes "fare up   btn=") e.button s

  unfoldable pub say_kind : ℕ → EventType → Event → Shell S → Option (Shell S)
  say_kind k ev_none e s = some s
  say_kind k ev_key_down e s = say_key k e s
  say_kind k ev_key_up e s = some s
  say_kind k ev_mouse_move e s = some s
  say_kind k ev_mouse_down e s = say_down k e s
  say_kind k ev_mouse_up e s = say_up k e s

  unfoldable pub say_event : ℕ → Event → Shell S → Option (Shell S)
  say_event k e s = say_kind k e.kind e s

  -- The loop of `cmd_events`, with what interrupts push before each of its polls; `none` where it
  -- goes on beyond them.
  unfoldable pub event_loop :
      ℕ → List (List Event) → Flags → EventQueue → Shell S → Option (EventQueue × Shell S)
  event_loop k [] f q s = none
  event_loop k (batch ∷ later) f q s =
      let (out, f', q') = event_poll f (push_all batch q) in
      elim out [
        | none ↦ event_loop k later f' q' s
        | some e ↦ elim (is_escape e) [
          | true ↦ some (q', s)
          | false ↦ elim (say_event k e s) [ none ↦ none | some t ↦ event_loop k later f' q' t ]
        ]
      ]

  unfoldable pub cmd_events :
      ℕ
      → ℕ
      → List (List Event)
      → Flags
      → EventQueue
      → Keyboard
      → Shell S
      → Option (EventQueue × Keyboard × Shell S)
  cmd_events rounds k later f q b s = do
    s1 ← say k (codes "olay dongusu - cikmak icin ESC" ++ 10 ∷ []) s
    (q', s2) ← event_loop k later f q s1
    b' ← drain_keys rounds b
    s3 ← say k (codes "olay dongusu bitti" ++ 10 ∷ []) s2
    some (q', b', s3)
