-- ===== src/Shell/Speech.antt =====
-- What the commands mem and events of src/kernel/kernel.c print, one piece behind another.
use arc_monark.Base.{
  ℕ, suc, ◌^◌, ◌≤◌, ◌<◌, refl, ap, ◌∙◌, inl, inr, Option, List, [], ◌∷◌, arith, ◌==◌, if◌then◌else◌,
  Bool-cases,
}
use arc_monark.Str.Decimal.{Spelled, digits_loop-Spelled}
use arc_monark.Event.{Event}
use arc_monark.Shell.{Shell, say}
use arc_monark.Shell.Runs.{Leaves, say-Leaves, new_line-Leaves}
use arc_monark.Console.Cursor.{IsValid}
use arc_monark.Base.Text.{codes}
use arc_monark.Base.Int.{ℤ, pos, negsuc}
use arc_monark.Event.{
  EventType, ev_none, ev_key_down, ev_key_up, ev_mouse_down, ev_mouse_up, ev_mouse_move,
}
use arc_monark.Pmm.{Pmm, pmm_total_frames, pmm_used_frames, pmm_free_frames}
use arc_monark.Shell.Tools.{
  cmd_mem, free_mib, say_count, say_kind, say_key, say_down, say_up, uint16, say_number, ◌>>=◌,
}

uint16_small : (v : ℤ) → uint16 v < 2 ^ 64
unfolding uint16
uint16_small (pos n) = omega arith
uint16_small (negsuc n) = omega arith

module _ {S : Type 0} where
  say_number-Leaves :
      (k v : ℕ) (s : Shell S)
      → v < 2 ^ 64
      → IsValid s.console
      → Leaves (say_number (suc (suc k)) v s) s.settings s.console.con_fg s.console.con_bg
  unfolding say_number
  say_number-Leaves k v s small valid = elim (Bool-cases (v == 0)) [
    | inl e ↦ rw e (say-Leaves k (48 ∷ []) s valid)
    | inr e ↦
        let d : Spelled 20 v [] = digits_loop-Spelled 20 v [] (omega arith) in
        rw (e, d.runs) (say-Leaves k d.out s valid)
  ]

  -- one command behind another
  pub then-Leaves :
      {r : Option (Shell S)} {next : Shell S → Option (Shell S)} (s : Shell S)
      → Leaves r s.settings s.console.con_fg s.console.con_bg
      → ((t : Shell S)
          → IsValid t.console
          → Leaves (next t) t.settings t.console.con_fg t.console.con_bg)
      → Leaves (r >>= next) s.settings s.console.con_fg s.console.con_bg
  then-Leaves {r} {next} s (t, runs, v, same, fg, bg) rest =
      let (u, runs', v', same', fg', bg') = rest t v in
      (
        u,
        ap (λ (x : Option (Shell S)). x >>= next) runs ∙ runs',
        v',
        same' ∙ same,
        fg' ∙ fg,
        bg' ∙ bg,
      )

  -- It leaves the settings and the colours as they are.
  abbrev pub Quiet : (Shell S → Option (Shell S)) → Type 0
  Quiet go =
      (s : Shell S) → IsValid s.console → Leaves (go s) s.settings s.console.con_fg s.console.con_bg

  pub then-Quiet : {m n : Shell S → Option (Shell S)} → Quiet m → Quiet n → Quiet (λ s. m s >>= n)
  then-Quiet qm qn s v = then-Leaves s (qm s v) qn

  pub say-Quiet : (k : ℕ) (text : List ℕ) → Quiet (say (suc (suc k)) text)
  say-Quiet k text s v = say-Leaves k text s v

  pub say_number-Quiet : (k v : ℕ) → v < 2 ^ 64 → Quiet (say_number (suc (suc k)) v)
  say_number-Quiet k v small s valid = say_number-Leaves k v s small valid

  pub say_count-Quiet :
      (k : ℕ) (label : List ℕ) (v : ℕ) → v < 2 ^ 64 → Quiet (say_count (suc (suc k)) label v)
  unfolding say_count
  say_count-Quiet k label v small =
      then-Quiet (say-Quiet k label) (then-Quiet (say_number-Quiet k v small) (new_line-Leaves k))

  pub say_kind-Quiet :
      (k : ℕ) (kind : EventType) (e : Event)
      → e.scancode < 2 ^ 64
      → e.button < 2 ^ 64
      → Quiet (say_kind (suc (suc k)) kind e)
  unfolding say_kind say_key say_down say_up
  say_kind-Quiet k ev_none e code button = λ s v. (s, refl, v, refl, refl, refl)
  say_kind-Quiet k ev_key_up e code button = λ s v. (s, refl, v, refl, refl, refl)
  say_kind-Quiet k ev_mouse_move e code button = λ s v. (s, refl, v, refl, refl, refl)
  say_kind-Quiet k ev_key_down e code button = then-Quiet (say-Quiet k (codes "tus  : '")) (
      then-Quiet (say-Quiet k (if e.ch == 0 then codes "?" else e.ch ∷ [])) (
        then-Quiet (say-Quiet k (codes "'  sc="))
          (then-Quiet (say_number-Quiet k e.scancode code) (new_line-Leaves k))))
  say_kind-Quiet k ev_mouse_down e code button = then-Quiet (say-Quiet k (codes "fare down btn=")) (
      then-Quiet (say_number-Quiet k e.button button) (
        then-Quiet (say-Quiet k (codes " @")) (
          then-Quiet (say_number-Quiet k (uint16 e.x) (uint16_small e.x)) (
            then-Quiet (say-Quiet k (codes ",")) (
              then-Quiet (say_number-Quiet k (uint16 e.y) (uint16_small e.y))
                (new_line-Leaves k))))))
  say_kind-Quiet k ev_mouse_up e code button =
      say_count-Quiet k (codes "fare up   btn=") e.button button

  -- For a valid console, fuel of at least 2 and numbers of 64 bits, `cmd_mem` returns, with a valid
  -- console and the settings and colours as they were.
  cmd_mem-Quiet :
      (k heap_used : ℕ) (p : Pmm)
      → p.total_frames < 2 ^ 64
      → p.used_frames ≤ p.total_frames
      → heap_used < 2 ^ 64
      → Quiet (cmd_mem (suc (suc k)) p heap_used)
  unfolding cmd_mem free_mib pmm_total_frames pmm_used_frames pmm_free_frames
  cmd_mem-Quiet k heap_used p total used heap =
      then-Quiet (say_count-Quiet k (codes "total frames : ") p.total_frames total) (
        then-Quiet (say_count-Quiet k (codes "used  frames : ") p.used_frames (omega arith)) (
          then-Quiet (say_count-Quiet k (codes "free  frames : ") (pmm_free_frames p) (omega arith))
            (then-Quiet (say_count-Quiet k (codes "free  ram MiB: ") (free_mib p) (omega arith))
              (say_count-Quiet k (codes "heap  used  B: ") heap_used heap))))
