-- ===== src/Console/Tests.antt =====
-- The console on a concrete screen.
use arc_monark.Base.{◌≡◌, refl, [], ◌∷◌, arith}
use arc_monark.Gfx.{Gfx}
use arc_monark.Gfx.Screen.{IsScreen}
use arc_monark.Console.{Console, print}
use arc_monark.Console.Cursor.{IsValid, moved, moved_all}
use arc_monark.Console.Run.{Returns, print-Returns}

-- 3 by 2 cells
abbrev small : Gfx
small = record {
  g_hw = 0x10000;
  g_fb = 0x1000;
  g_width = 24;
  g_height = 32;
  g_pitch = 96;
  g_bpp = 32;
  memory = λ a. 0;
}

-- in the last cell
abbrev corner : Console
corner = record { cur_x = 2; cur_y = 1; con_fg = 9; con_bg = 8; gfx = small }

corner-IsValid : IsValid corner
corner-IsValid = record {
  wide = omega arith;
  high = omega arith;
  x_in = omega arith;
  y_in = omega arith;
}

small-IsScreen : IsScreen small
small-IsScreen = record { line = omega arith; wide = omega arith; high = omega arith }

-- the cursor goes back to the start of the last line
corner_moved : moved 3 2 65 (2, 1) ≡ (0, 1)
corner_moved = refl

print-Returns_example :
    Returns corner (print 2 (65 ∷ 10 ∷ 8 ∷ []) corner) (moved_all 3 2 (65 ∷ 10 ∷ 8 ∷ []) (2, 1))
print-Returns_example = print-Returns (65 ∷ 10 ∷ 8 ∷ []) corner-IsValid 0

abbrev low : Console
low = record { cur_x = 0; cur_y = 0; con_fg = 9; con_bg = 8; gfx = record small { g_height = 15 } }
