-- ===== src/Mouse/Screen.antt =====
-- The pointer of src/drivers/mouse.c stays on the screen, and a packet is three bytes.
use arc_monark.Base.{
  ℕ, ◌+◌, ◌-◌, ◌/◌, ◌^◌, ◌≤◌, ◌<◌, bit_and, ◌≡◌, refl, ap, ◌∙◌, inl, inr, Bool, true, false, arith,
  ltb, ◌==◌, if◌then◌else◌, ltb→lt, Bool-cases,
}
use arc_monark.Base.Masks.{bit_and-ones}
use arc_monark.Base.Int.{ℤ, pos, negsuc, ◌+ℤ◌, ◌-ℤ◌}
use arc_monark.Event.{Event, EventQueue, event_push}
use arc_monark.Event.Ring.{IsValid as IsQueue, event_push-IsValid}
use arc_monark.Pic.{pic_send_eoi}
use arc_monark.Mouse.{
  Mouse, signed_move, int32, half, clamp, button_event, push_button, apply_packet, take_byte,
  end_interrupt, mouse_irq, mouse_start,
}

-- a coordinate below the size of the screen
abbrev pub Inside : ℤ → ℕ → Type 0
Inside v size = (n : ℕ) × (v ≡ pos n) × (n < size)

-- The size of the screen leaves room in an `int` for one more move, the pointer is on the screen, the packet has at most two bytes so far, the first of which has the
-- bit that marks it, and the event queue is whole.
pub record IsValid (m : Mouse) : Type 0 where
  pub wide : m.s_w + 256 ≤ 2 ^ 31
  pub high : m.s_h + 256 ≤ 2 ^ 31
  pub x_in : Inside m.s_x m.s_w
  pub y_in : Inside m.s_y m.s_h
  pub bytes : m.cycle < 3
  pub buttons : m.s_buttons < 8
  pub queue : IsQueue m.events

int32-pos : (n : ℕ) → n < 2 ^ 31 → int32 n ≡ pos n
unfolding int32
int32-pos n lt = ground arith

last : (n : ℕ) → 0 < n → pos n -ℤ pos 1 ≡ pos (n - 1)
unfolding ◌-ℤ◌
last n lt = ground arith

never : (n : ℕ) → ltb (n + 0) 0 ≡ false
never n = ground arith

clamp-Inside : (v : ℤ) (size : ℕ) → 0 < size → size < 2 ^ 31 → Inside (clamp v size) size
unfolding clamp
clamp-Inside (pos n) size h small = elim (Bool-cases (ltb n size)) [
  | inl lt ↦ (n, rw (int32-pos size small) (rw (never n) (ground arith)), ltb→lt n size lt)
  | inr ge ↦
      (size - 1, rw (int32-pos size small, last size h) (rw (never n) (ground arith)), omega arith)
]
clamp-Inside (negsuc n) size h small = (0, rw (int32-pos size small) (ground arith), h)

push_button-IsValid :
    (x y : ℤ) (buttons changed bit : ℕ) {q : EventQueue}
    → IsQueue q
    → IsQueue (push_button x y buttons changed bit q)
unfolding push_button
push_button-IsValid x y buttons changed bit v = elim (Bool-cases (bit_and changed bit == 0)) [
  | inl e ↦ rw e v
  | inr ne ↦ rw ne (event_push-IsValid (button_event x y buttons bit) v)
]

maybe_push :
    (b : Bool) (e : Event) {q : EventQueue} → IsQueue q → IsQueue (if b then event_push e q else q)
maybe_push true e v = event_push-IsValid e v
maybe_push false e v = v

-- what the interrupt may not change
abbrev Fits : Mouse → Type 0
Fits m = (0 < m.s_w) × (0 < m.s_h)

apply_packet-IsValid : {m : Mouse} → Fits m → IsValid m → IsValid (apply_packet m)
unfolding apply_packet
apply_packet-IsValid {m} (w, h) v = record {
  wide = v.wide;
  high = v.high;
  x_in =
      clamp-Inside (m.s_x +ℤ signed_move m.packet_1 m.packet_0 4) m.s_w w (omega (arith, v.wide));
  y_in =
      clamp-Inside (m.s_y -ℤ signed_move m.packet_2 m.packet_0 3) m.s_h h (omega (arith, v.high));
  bytes = v.bytes;
  buttons = omega (arith, bit_and-ones 3 m.packet_0);
  queue =
      push_button-IsValid _ _ _ _ 4
        (push_button-IsValid _ _ _ _ 2 (push_button-IsValid _ _ _ _ 1 (maybe_push _ _ v.queue)));
}

Inside-pos : {v : ℤ} {size : ℕ} → Inside v size → 0 < size
Inside-pos (n, e, lt) = omega arith

take_byte-IsValid : (byte : ℕ) {m : Mouse} → IsValid m → IsValid (take_byte byte m)
unfolding take_byte
take_byte-IsValid byte {m} v = elim (Bool-cases (m.cycle == 0)) [
  | inl first ↦ elim (Bool-cases (bit_and byte 0x08 == 0)) [
    | inl e ↦ rw (first, e) v
    | inr ne ↦
        rw (first, ne)
          (record {
            wide = v.wide;
            high = v.high;
            x_in = v.x_in;
            y_in = v.y_in;
            bytes = omega arith;
            buttons = v.buttons;
            queue = v.queue;
          })
  ]
  | inr not_first ↦ elim (Bool-cases (m.cycle == 1)) [
    | inl second ↦
        rw (not_first, second)
          (record {
            wide = v.wide;
            high = v.high;
            x_in = v.x_in;
            y_in = v.y_in;
            bytes = omega arith;
            buttons = v.buttons;
            queue = v.queue;
          })
    | inr not_second ↦ elim (Bool-cases (m.cycle == 2)) [
      | inl third ↦
          let whole : IsValid (record m { packet_2 = byte; cycle = 0 }) = record {
            wide = v.wide;
            high = v.high;
            x_in = v.x_in;
            y_in = v.y_in;
            bytes = omega arith;
            buttons = v.buttons;
            queue = v.queue;
          } in
          elim (Bool-cases (bit_and m.packet_0 0xC0 == 0)) [
            | inl fine ↦
                rw (not_first, not_second, third, fine)
                  (apply_packet-IsValid (Inside-pos v.x_in, Inside-pos v.y_in) whole)
            | inr overflow ↦ rw (not_first, not_second, third, overflow) whole
          ]
      | inr other ↦ rw (not_first, not_second, other) v
    ]
  ]
]

end_interrupt-IsValid : {m : Mouse} → IsValid m → IsValid (end_interrupt m)
unfolding end_interrupt
end_interrupt-IsValid v = record {
  wide = v.wide;
  high = v.high;
  x_in = v.x_in;
  y_in = v.y_in;
  bytes = v.bytes;
  buttons = v.buttons;
  queue = v.queue;
}

-- From a valid mouse, on a screen of at most 2^31 - 256 pixels each way, the interrupt leaves the pointer on the screen, the packet at most two
-- bytes long, the buttons below 8, and the event queue whole, whatever the device sends.
pub mouse_irq-IsValid :
    (status byte : ℕ) {m : Mouse} → IsValid m → IsValid (mouse_irq status byte m)
unfolding mouse_irq
mouse_irq-IsValid status byte {m} v = elim (Bool-cases (bit_and status 0x20 == 0)) [
  | inl e ↦ rw e (end_interrupt-IsValid v)
  | inr ne ↦ rw ne (end_interrupt-IsValid (take_byte-IsValid byte v))
]

half-pos : (n : ℕ) → half (pos n) ≡ pos (n / 2)
unfolding half
half-pos n = refl

-- On a screen that is not empty and of at most 2^31 - 256 pixels each way, `mouse_init` puts the pointer on the screen, and so begins with
-- what the interrupt keeps.
pub mouse_start-IsValid :
    (w h : ℕ) (m : Mouse)
    → 0 < w
    → 0 < h
    → w + 256 ≤ 2 ^ 31
    → h + 256 ≤ 2 ^ 31
    → IsQueue m.events
    → IsValid (mouse_start w h m)
unfolding mouse_start
mouse_start-IsValid w h m wide high room_w room_h v = record {
  wide = room_w;
  high = room_h;
  x_in = (w / 2, ap half (int32-pos w (omega arith)) ∙ half-pos w, omega arith);
  y_in = (h / 2, ap half (int32-pos h (omega arith)) ∙ half-pos h, omega arith);
  bytes = omega arith;
  buttons = omega arith;
  queue = v;
}

first_byte :
    (a : ℕ) (m : Mouse)
    → m.cycle ≡ 0
    → (bit_and a 0x08 == 0) ≡ false
    → mouse_irq 0x20 a m ≡ end_interrupt (record m { packet_0 = a; cycle = 1 })
unfolding mouse_irq take_byte
first_byte a m start mark =
    let here : (m.cycle == 0) ≡ true = ground (arith, start) in
    ap end_interrupt (rw (here, mark) refl)

second_byte :
    (b : ℕ) (m : Mouse)
    → m.cycle ≡ 1
    → mouse_irq 0x20 b m ≡ end_interrupt (record m { packet_1 = b; cycle = 2 })
unfolding mouse_irq take_byte
second_byte b m start =
    let later : (m.cycle == 0) ≡ false = ground (arith, start) in
    let here : (m.cycle == 1) ≡ true = ground (arith, start) in
    ap end_interrupt (rw (later, here) refl)

third_byte :
    (c : ℕ) (m : Mouse)
    → m.cycle ≡ 2
    → (bit_and m.packet_0 0xC0 == 0) ≡ true
    → mouse_irq 0x20 c m ≡ end_interrupt (apply_packet (record m { packet_2 = c; cycle = 0 }))
unfolding mouse_irq take_byte
third_byte c m start fine =
    let later : (m.cycle == 0) ≡ false = ground (arith, start) in
    let much_later : (m.cycle == 1) ≡ false = ground (arith, start) in
    let here : (m.cycle == 2) ≡ true = ground (arith, start) in
    ap end_interrupt (rw (later, much_later, here, fine) refl)

-- three bytes, one after the other
abbrev pub three : ℕ → ℕ → ℕ → Mouse → Mouse
three a b c m = mouse_irq 0x20 c (mouse_irq 0x20 b (mouse_irq 0x20 a m))

-- After three bytes of which the first has its mark and no overflow, the packet has been applied,
-- the end of each interrupt was signalled, and the next byte is taken for the first of a packet
-- again.
pub mouse_irq-apply_packet :
    (a b c : ℕ) (m : Mouse)
    → m.cycle ≡ 0
    → (bit_and a 0x08 == 0) ≡ false
    → (bit_and a 0xC0 == 0) ≡ true
    → (three a b c m
        ≡ end_interrupt (
            apply_packet (record m {
              packet_0 = a;
              packet_1 = b;
              packet_2 = c;
              cycle = 0;
              port_writes = pic_send_eoi 12 (pic_send_eoi 12 m.port_writes);
            })))
      × ((three a b c m).cycle ≡ 0)
unfolding end_interrupt apply_packet
mouse_irq-apply_packet a b c m start mark fine =
    let m1 : Mouse = end_interrupt (record m { packet_0 = a; cycle = 1 }) in
    let m2 : Mouse = end_interrupt (record m1 { packet_1 = b; cycle = 2 }) in
    let all =
      ap (λ t. mouse_irq 0x20 c (mouse_irq 0x20 b t)) (first_byte a m start mark)
      ∙ (ap (mouse_irq 0x20 c) (second_byte b m1 refl) ∙ third_byte c m2 refl fine) in
    (all, ap (λ (t : Mouse). t.cycle) all)
