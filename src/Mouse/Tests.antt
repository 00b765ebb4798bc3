-- ===== src/Mouse/Tests.antt =====
-- The mouse on concrete bytes.
use arc_monark.Base.{refl, [], arith, replicate}
use arc_monark.Base.Int.{pos}
use arc_monark.Event.{zero_event}
use arc_monark.Event.Ring.{IsValid as IsQueue}
use arc_monark.Mouse.{Mouse, mouse_irq}
use arc_monark.Mouse.Screen.{IsValid, mouse_irq-IsValid}

abbrev corner : Mouse
corner = record {
  s_x = pos 639;
  s_y = pos 0;
  s_w = 640;
  s_h = 480;
  s_buttons = 1;
  packet_0 = 8;
  packet_1 = 0;
  packet_2 = 0;
  cycle = 0;
  events = record { q = replicate 256 zero_event; q_head = 0; q_tail = 0 };
  port_writes = [];
}

events-IsQueue : IsQueue corner.events
events-IsQueue = record { slots = refl; head_in = omega arith; tail_in = omega arith }

corner-IsValid : IsValid corner
corner-IsValid = record {
  wide = omega arith;
  high = omega arith;
  x_in = (639, refl, omega arith);
  y_in = (0, refl, omega arith);
  bytes = omega arith;
  buttons = omega arith;
  queue = events-IsQueue;
}

mouse_irq-IsValid_example : IsValid (mouse_irq 0x21 9 corner)
mouse_irq-IsValid_example = mouse_irq-IsValid 0x21 9 corner-IsValid
