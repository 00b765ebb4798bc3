-- ===== src/Ports/Sent.antt =====
-- What `mouse_init` of src/drivers/mouse.c and `keyboard_init` of src/drivers/keyboard.c send,
-- whatever the devices answer.
use arc_monark.Base.{
  ℕ, ◌+◌, ◌*◌, ◌%◌, ◌^◌, ◌<◌, bit_and, ◌≡◌, refl, ap, ◌∙◌, Bool, true, false, ◌&&◌, some, List, ◌∷◌,
  ◌==◌, ==_eq,
}
use arc_monark.Pmm.{clear_bit}
use arc_monark.Idt.{IdtEntry, idt_int_gate, idt_set_gate}
use arc_monark.Mouse.{Mouse, mouse_start}
use arc_monark.Ports.{
  Io, irq_clear_mask, pic1_data, pic2_data, ps2_data, ps2_status, with_mouse, enable_mouse,
  mouse_init, keyboard_init,
}
use arc_monark.Base.Bits.{all_below, all_below_sound}
use arc_monark.Ports.Steps.{
  Answer, Answer-carried, drain_sends, enable_mouse_sends, irq_clear_mask_sends,
}

-- the two bits that are set and cleared, and the six others
abbrev keeps_others : ℕ → Bool
keeps_others status =
    (bit_and (with_mouse status) 0x22 == 0x02)
    && (bit_and (with_mouse status) 0xDD == bit_and status 0xDD)

keep_all : all_below 256 keeps_others ≡ true
unfolding all_below with_mouse
keep_all = refl

both : (a b : Bool) → (a && b) ≡ true → (a ≡ true) × (b ≡ true)
both true true h = (refl, refl)
both true false h = (refl, h)
both false true h = (h, refl)
both false false h = (h, h)

-- Where the controller's buffer runs empty within the rounds given, `mouse_init` always returns,
-- whatever the devices answer and however often a wait runs out: the mouse is as `mouse_start` leaves
-- it, the gate of vector 0x2C leads to the mouse's interrupt, and what is sent is, in this
-- order, the command that enables the mouse, one of the bytes that the data port answers with, but
-- for bit 1, which is set, and bit 5, which is cleared, the two commands to the mouse, and the masks of
-- the two controllers, each an answer of its port, without the bits of IRQ 2 and IRQ 12.
pub mouse_init_sends :
    (rounds j irq_at w h : ℕ) (m : Mouse) (idt : List IdtEntry) (io : Io)
    → j < rounds
    → bit_and (io.answers ps2_status (io.reads + 2 * j) % 2 ^ 8) 1 ≡ 0
    → (config status mask1 mask2 : ℕ) × (io' : Io) × (mouse_init rounds irq_at w h (m, idt, io)
        ≡ some (mouse_start w h m, idt_set_gate 0x2C irq_at idt_int_gate idt, io'))
      × Answer io ps2_data status
      × Answer io pic1_data mask1
      × Answer io pic2_data mask2
      × (bit_and config 0x22 ≡ 0x02)
      × (bit_and config 0xDD ≡ bit_and status 0xDD)
      × (io'.writes
          ≡ (pic2_data, clear_bit mask2 4)
            ∷ (pic1_data, clear_bit mask1 2)
            ∷ (ps2_data, 0xF4)
            ∷ (ps2_status, 0xD4)
            ∷ (ps2_data, 0xF6)
            ∷ (ps2_status, 0xD4)
            ∷ (ps2_data, config)
            ∷ (ps2_status, 0x60)
            ∷ (ps2_status, 0x20)
            ∷ (ps2_status, 0xA8)
            ∷ io.writes)
unfolding mouse_init
mouse_init_sends rounds j irq_at w h m idt io lt empty =
    let (io1, runs, same, kept) = drain_sends rounds j io lt empty in
    let (status, byte, read, kept_1, sent) = enable_mouse_sends io1 in
    let io2 : Io = enable_mouse io1 in
    let (mask1, read_1, kept_2, first) = irq_clear_mask_sends 2 io2 in
    let (mask2, read_2, kept_3, second) = irq_clear_mask_sends 12 (irq_clear_mask 2 io2) in
    let fact =
      both (bit_and (with_mouse status) 0x22 == 0x02)
        (bit_and (with_mouse status) 0xDD == bit_and status 0xDD)
        (all_below_sound 256 keeps_others status keep_all byte) in
    (
      with_mouse status,
      status,
      mask1,
      mask2,
      irq_clear_mask 12 (irq_clear_mask 2 io2),
      rw (runs, mouse_init) refl,
      Answer-carried io io1 ps2_data status kept read,
      Answer-carried io io2 pic1_data mask1 (kept_1 ∙ kept) read_1,
      Answer-carried io (irq_clear_mask 2 io2) pic2_data mask2 (kept_2 ∙ (kept_1 ∙ kept)) read_2,
      ==_eq (bit_and (with_mouse status) 0x22) 0x02 fact.0,
      ==_eq (bit_and (with_mouse status) 0xDD) (bit_and status 0xDD) fact.1,
      second
          ∙ ap (λ w. (pic2_data, clear_bit mask2 4) ∷ w)
              (first
                ∙ ap (λ w. (pic1_data, clear_bit mask1 2) ∷ w)
                    (sent
                      ∙ ap
                          (λ w.
                            (ps2_data, 0xF4)
                            ∷ (ps2_status, 0xD4)
                            ∷ (ps2_data, 0xF6)
                            ∷ (ps2_status, 0xD4)
                            ∷ (ps2_data, with_mouse status)
                            ∷ (ps2_status, 0x60)
                            ∷ (ps2_status, 0x20)
                            ∷ (ps2_status, 0xA8)
                            ∷ w)
                          same)),
    )

-- Where the controller's buffer runs empty within the rounds given, `keyboard_init` always returns:
-- the gate of vector 0x21 leads to the keyboard's interrupt, and all that is sent is the mask of the
-- first controller as read, without the bit of IRQ 1.
pub keyboard_init_sends :
    (rounds j handler_at : ℕ) (idt : List IdtEntry) (io : Io)
    → j < rounds
    → bit_and (io.answers ps2_status (io.reads + 2 * j) % 2 ^ 8) 1 ≡ 0
    → (mask : ℕ) × (io' : Io) × (keyboard_init rounds handler_at (idt, io)
        ≡ some (idt_set_gate 0x21 handler_at idt_int_gate idt, io'))
      × Answer io pic1_data mask
      × (io'.writes ≡ (pic1_data, clear_bit mask 1) ∷ io.writes)
unfolding keyboard_init
keyboard_init_sends rounds j handler_at idt io lt empty =
    let (io1, runs, same, kept) = drain_sends rounds j io lt empty in
    let (mask, read, kept_1, sent) = irq_clear_mask_sends 1 io1 in
    (
      mask,
      irq_clear_mask 1 io1,
      rw (runs, keyboard_init) refl,
      Answer-carried io io1 pic1_data mask kept read,
      sent ∙ ap (λ w. (pic1_data, clear_bit mask 1) ∷ w) same,
    )
