-- ===== src/Shell/Tests.antt =====
-- The commands on a concrete console.
use arc_monark.Base.{ℕ, ◌≡◌, refl, inl, inr, true, List, [], ◌∷◌, arith, replicate}
use arc_monark.Gfx.{Gfx}
use arc_monark.Console.Cursor.{IsValid}
use arc_monark.Settings.{lang_en}
use arc_monark.Shell.{Shell}
use arc_monark.Shell.Runs.{Leaves}
use arc_monark.Base.Int.{pos}
use arc_monark.Gfx.{gfx_copy_out, gfx_blit}
use arc_monark.Gfx.Screen.{IsScreen, pixel_at}
use arc_monark.Gfx.Fill.{Paints}
use arc_monark.Shell.Pointer.{draw_cursor}
use arc_monark.Shell.Under.{gfx_blit-draw_cursor}
use arc_monark.Event.{ev_key_down, ev_mouse_up, Event, EventQueue, zero_event}
use arc_monark.Event.Ring
use arc_monark.Event.Refine.{contents, spec_run, spec_push, spec_poll, drop_oldest}
use arc_monark.Shell.Tools.{event_loop}
use arc_monark.Shell.Loop.{polls, handle, shell_of, Escapes, event_loop-Quiet}

abbrev screen : Gfx
screen = record {
  g_hw = 0x10000;
  g_fb = 0x1000;
  g_width = 80;
  g_height = 48;
  g_pitch = 320;
  g_bpp = 32;
  memory = λ a. 0;
}

-- at the start, in English; the rest of the state counts the ports that are written
abbrev start : Shell ℕ
start = record {
  settings = record { language = lang_en; fg = 0xFFFFFFFF; bg = 0xFF000000 };
  console = record { cur_x = 0; cur_y = 0; con_fg = 0xFFFFFFFF; con_bg = 0xFF000000; gfx = screen };
  rest = 0;
}

start-IsValid : IsValid start.console
start-IsValid = record {
  wide = omega arith;
  high = omega arith;
  x_in = omega arith;
  y_in = omega arith;
}

screen-IsScreen : IsScreen screen
screen-IsScreen = record { line = omega arith; wide = omega arith; high = omega arith }

gfx_blit-draw_cursor_example :
    Paints
      (draw_cursor (pos 60) (pos 30) 1 (gfx_copy_out 60 30 12 15 0x20000 screen))
      (gfx_blit 0x20000 60 30 12 15
        (draw_cursor (pos 60) (pos 30) 1 (gfx_copy_out 60 30 12 15 0x20000 screen)))
      (pixel_at screen)
gfx_blit-draw_cursor_example =
    gfx_blit-draw_cursor screen-IsScreen 0x20000 60 30 1 (omega arith) (omega arith)
      (inr (omega arith))

abbrev empty_ring : EventQueue
empty_ring = record { q = replicate 256 zero_event; q_head = 0; q_tail = 0 }

empty_ring-IsValid : Ring.IsValid empty_ring
empty_ring-IsValid = record { slots = refl; head_in = omega arith; tail_in = omega arith }

abbrev key : ℕ → Event
key code = record zero_event { kind = ev_key_down; ch = 97; scancode = code }

-- a key, nothing, a button and the escape key
abbrev batches : List (List Event)
batches =
    (key 30 ∷ [])
    ∷ []
    ∷ (record zero_event { kind = ev_mouse_up; button = 1 } ∷ key 1 ∷ [])
    ∷ []
    ∷ []

ends : Escapes (spec_run (polls batches) (contents empty_ring)).0
unfolding spec_run spec_push spec_poll drop_oldest
ends = inr (omega arith, omega arith, inr (omega arith, omega arith, inl (refl, refl)))

event_loop-Quiet_example :
    let outs = (spec_run (polls batches) (contents empty_ring)).0 in
    (shell_of (event_loop 2 batches true empty_ring start) ≡ handle 2 outs start)
    × Leaves
        (shell_of (event_loop 2 batches true empty_ring start))
        start.settings
        start.console.con_fg
        start.console.con_bg
event_loop-Quiet_example =
    event_loop-Quiet 0 batches true empty_ring start empty_ring-IsValid start-IsValid ends
