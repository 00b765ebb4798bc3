-- ===== src/Mouse.antt =====
-- src/drivers/mouse.c and include/mouse.h: the PS/2 mouse, whose interrupt puts packets of three
-- bytes together and moves the pointer. Its definitions are here; `Mouse.Screen` is about the place
-- of the pointer and the bytes of a packet.
pub mod Screen
mod Tests
use arc_monark.Base.{
  ℕ, ◌+◌, ◌-◌, ◌*◌, ◌/◌, ◌%◌, ◌^◌, bit_and, bit_xor, Bool, ◌||◌, List, ltb, ◌==◌, if◌then◌else◌,
}
use arc_monark.Base.Int.{ℤ, pos, negsuc, sub_ℕ, ◌+ℤ◌, ◌-ℤ◌, ltb_ℤ}
use arc_monark.Pic.{PortWrite, pic_send_eoi}
use arc_monark.Event.{
  Event, EventQueue, zero_event, ev_mouse_move, ev_mouse_down, ev_mouse_up, event_push,
}

-- The static data of mouse.c, the event queue that the interrupt pushes to,
-- and the bytes that it has written to ports, the last one in front. `s_w` and `s_h` are
-- `uint32_t`; the sums of `int` are not bounded here, `Mouse.Screen.IsValid` keeps them in range.
pub record Mouse : Type 0 where
  pub s_x : ℤ
  pub s_y : ℤ
  pub s_w : ℕ
  pub s_h : ℕ
  pub s_buttons : ℕ
  pub packet_0 : ℕ
  pub packet_1 : ℕ
  pub packet_2 : ℕ
  pub cycle : ℕ
  pub events : EventQueue
  pub port_writes : List PortWrite

-- `(int)byte - ((flags << k) & 0x100)`, with the sign bit in the flags
pub signed_move : ℕ → ℕ → ℕ → ℤ
signed_move byte flags k = sub_ℕ byte (bit_and (flags * 2 ^ k) 0x100)

-- `(int)n` of a `uint32_t`
pub int32 : ℕ → ℤ
int32 n = if ltb n (2 ^ 31) then pos n else sub_ℕ n (2 ^ 32)

-- `v / 2` of an `int`, which is cut towards 0
pub half : ℤ → ℤ
half (pos n) = pos (n / 2)
half (negsuc n) = sub_ℕ 0 ((n + 1) / 2)

-- `if (v < 0) v = 0; if (v >= (int)size) v = (int)size - 1;`
pub clamp : ℤ → ℕ → ℤ
clamp v size =
    let low : ℤ = if ltb_ℤ v (pos 0) then pos 0 else v in
    if ltb_ℤ low (int32 size) then low else int32 size -ℤ pos 1

-- `(int16_t)v`
pub int16 : ℤ → ℤ
int16 (pos n) = if ltb (n % 2 ^ 16) (2 ^ 15) then pos (n % 2 ^ 16) else sub_ℕ (n % 2 ^ 16) (2 ^ 16)
int16 (negsuc n) =
    let m : ℕ = 2 ^ 16 - 1 - n % 2 ^ 16 in if ltb m (2 ^ 15) then pos m else sub_ℕ m (2 ^ 16)

-- `v != 0`
abbrev pub nonzero : ℤ → Bool
nonzero v = ltb_ℤ v (pos 0) || ltb_ℤ (pos 0) v

pub move_event : ℤ → ℤ → ℤ → ℤ → ℕ → Event
move_event x y dx dy buttons = record zero_event {
  kind = ev_mouse_move;
  x = int16 x;
  y = int16 y;
  dx = int16 dx;
  dy = int16 dy;
  buttons = buttons;
}

pub button_event : ℤ → ℤ → ℕ → ℕ → Event
button_event x y buttons bit = record zero_event {
  kind = if bit_and buttons bit == 0 then ev_mouse_up else ev_mouse_down;
  button = bit;
  buttons = buttons;
  x = int16 x;
  y = int16 y;
}

-- the body of the loop on the three buttons
pub push_button : ℤ → ℤ → ℕ → ℕ → ℕ → EventQueue → EventQueue
push_button x y buttons changed bit q =
    if bit_and changed bit == 0 then q else event_push (button_event x y buttons bit) q

-- a whole packet that has no overflow
pub apply_packet : Mouse → Mouse
apply_packet m =
    let dx : ℤ = signed_move m.packet_1 m.packet_0 4 in
    let dy : ℤ = signed_move m.packet_2 m.packet_0 3 in
    let x : ℤ = clamp (m.s_x +ℤ dx) m.s_w in
    let y : ℤ = clamp (m.s_y -ℤ dy) m.s_h in
    let new_btn : ℕ = bit_and m.packet_0 0x07 in
    let edx : ℤ = x -ℤ m.s_x in
    let edy : ℤ = y -ℤ m.s_y in
    let q0 : EventQueue =
      if nonzero edx || nonzero edy
      then event_push (move_event x y edx edy new_btn) m.events
      else m.events in
    let changed : ℕ = bit_xor new_btn m.s_buttons in
    let q1 : EventQueue = push_button x y new_btn changed 1 q0 in
    let q2 : EventQueue = push_button x y new_btn changed 2 q1 in
    let q3 : EventQueue = push_button x y new_btn changed 4 q2 in
    record m { s_x = x; s_y = y; s_buttons = new_btn; events = q3 }

-- `switch (cycle)`, for a byte from the mouse
pub take_byte : ℕ → Mouse → Mouse
take_byte byte m =
    if m.cycle == 0
    then (if bit_and byte 0x08 == 0 then m else record m { packet_0 = byte; cycle = 1 })
    else (if m.cycle == 1
        then record m { packet_1 = byte; cycle = 2 }
        else (if m.cycle == 2
            then (let m' : Mouse = record m { packet_2 = byte; cycle = 0 } in
                if bit_and m.packet_0 0xC0 == 0 then apply_packet m' else m')
            else m))

pub end_interrupt : Mouse → Mouse
end_interrupt m = record m { port_writes = pic_send_eoi 12 m.port_writes }

-- `mouse_irq`, for the status byte and the byte that it reads
pub mouse_irq : ℕ → ℕ → Mouse → Mouse
mouse_irq status byte m = end_interrupt (if bit_and status 0x20 == 0 then m else take_byte byte m)

-- `mouse_init`, up to the bytes that it sends
pub mouse_start : ℕ → ℕ → Mouse → Mouse
mouse_start screen_w screen_h m = record m {
  s_w = screen_w;
  s_h = screen_h;
  s_x = half (int32 screen_w);
  s_y = half (int32 screen_h);
  cycle = 0;
  s_buttons = 0;
}

pub mouse_get_x : Mouse → ℤ
mouse_get_x m = m.s_x

pub mouse_get_y : Mouse → ℤ
mouse_get_y m = m.s_y

pub mouse_get_buttons : Mouse → ℕ
mouse_get_buttons m = m.s_buttons
