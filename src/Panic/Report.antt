-- ===== src/Panic/Report.antt =====
-- The report of src/cpu/panic.c is printed to its end.
use arc_monark.Base.{ℕ, suc, ◌≡◌, refl, ◌∙◌, Option, some, List, [], ◌∷◌}
use arc_monark.Console.{Console, set_color, clear_screen}
use arc_monark.Console.Cursor.{IsValid}
use arc_monark.Console.Run.{print-Returns}
use arc_monark.Shell.Runs.{clear_screen-IsValid}
use arc_monark.Panic.{InterruptFrame, print_all, report, panic}

-- It returns, with a valid console in these colours.
abbrev pub Ends : Option Console → ℕ → ℕ → Type 0
Ends r fg bg = (t : Console) × (r ≡ some t) × IsValid t × (t.con_fg ≡ fg) × (t.con_bg ≡ bg)

print_all-Ends :
    (k : ℕ) (texts : List (List ℕ)) {s : Console}
    → IsValid s
    → Ends (print_all (suc (suc k)) texts s) s.con_fg s.con_bg
unfolding print_all
print_all-Ends k [] {s} v = (s, refl, v, refl, refl)
print_all-Ends k (text ∷ texts) {s} v =
    let (t, run, went, v') = print-Returns text v k in
    let (u, run', v'', fg, bg) = print_all-Ends k texts v' in
    (u, rw (run, print_all) run', v'', fg ∙ went.fg, bg ∙ went.bg)

-- For a valid console and fuel of at least 2, whatever the message, the frame and the numbers: the
-- report of `panic` is printed to its end, so that the halt after it is reached, in white on red.
pub panic-Ends :
    (k : ℕ) (msg : List ℕ) (frame : InterruptFrame) (error_code cr2 : ℕ) {s : Console}
    → IsValid s
    → Ends (panic (suc (suc k)) msg frame error_code cr2 s) 0xFFFFFFFF 0x00AA0000
unfolding panic set_color clear_screen
panic-Ends k msg frame error_code cr2 {s} v = print_all-Ends k (report msg frame error_code cr2) (
    clear_screen-IsValid {s = set_color 0xFFFFFFFF 0x00AA0000 s}
      (record { wide = v.wide; high = v.high; x_in = v.x_in; y_in = v.y_in }))
