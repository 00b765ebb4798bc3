-- ===== src/Shell/Runs.antt =====
-- What the commands of src/kernel/kernel.c leave behind.
use arc_monark.Base.{
  ℕ, suc, ◌≡◌, refl, ◌∙◌, inl, inr, Option, some, List, [], ◌∷◌, ◌++◌, arith, if◌then◌else◌,
  Bool-cases,
}
use arc_monark.Base.Text.{codes}
use arc_monark.Gfx.{gfx_clear}
use arc_monark.Console.{Console, set_color, clear_screen}
use arc_monark.Console.Keep.{Drawn-then, gfx_clear-Drawn, gfx_present-Drawn}
use arc_monark.Console.Cursor.{IsValid, width_of, height_of}
use arc_monark.Console.Run.{putchar-Returns, print-Returns}
use arc_monark.Settings.{
  msg_welcome, msg_help_hint, Lang, lang_tr, lang_en, Settings, MsgId, msg_help_list, msg_about,
  msg_unknown_cmd, msg_lang_set, msg_theme_set, table, dark_fg, dark_bg, light_fg, light_bg, msg,
}
use arc_monark.Shell.{
  Shell, streq, say, new_line, say_line, say_msg, cmd_lang, cmd_theme, use_theme,
}

-- `r` is a shell whose console is valid, with these settings and colours.
abbrev pub Leaves : {S : Type 0} → Option (Shell S) → Settings → ℕ → ℕ → Type 0
Leaves {S} r settings fg bg =
    (t : Shell S) × (r ≡ some t)
    × IsValid t.console
    × (t.settings ≡ settings)
    × (t.console.con_fg ≡ fg)
    × (t.console.con_bg ≡ bg)

pub clear_screen-IsValid : {s : Console} → IsValid s → IsValid (clear_screen s)
unfolding clear_screen
clear_screen-IsValid {s} v =
    let d =
      Drawn-then (gfx_clear-Drawn s.con_bg s.gfx) (gfx_present-Drawn (gfx_clear s.con_bg s.gfx)) in
    record {
      wide = omega (arith, width_of d, v.wide);
      high = omega (arith, height_of d, v.high);
      x_in = omega (arith, width_of d, v.x_in);
      y_in = omega (arith, height_of d, v.y_in);
    }

table_there : (l : Lang) (id : MsgId) → (text : List ℕ) × (table l id ≡ some text)
unfolding table
table_there lang_tr msg_welcome = (_, refl)
table_there lang_tr msg_help_hint = (_, refl)
table_there lang_tr msg_help_list = (_, refl)
table_there lang_tr msg_about = (_, refl)
table_there lang_tr msg_unknown_cmd = (_, refl)
table_there lang_tr msg_lang_set = (_, refl)
table_there lang_tr msg_theme_set = (_, refl)
table_there lang_en msg_welcome = (_, refl)
table_there lang_en msg_help_hint = (_, refl)
table_there lang_en msg_help_list = (_, refl)
table_there lang_en msg_about = (_, refl)
table_there lang_en msg_unknown_cmd = (_, refl)
table_there lang_en msg_lang_set = (_, refl)
table_there lang_en msg_theme_set = (_, refl)

-- Every message is there.
pub msg_there : (id : MsgId) (s : Settings) → (text : List ℕ) × (msg id s ≡ some text)
unfolding msg
msg_there id s = let (text, there) = table_there s.language id in (text, rw (there, msg) refl)

-- the pair of colours after `cmd_theme`
abbrev pub theme : List ℕ → ℕ × ℕ → ℕ × ℕ
theme arg old =
    if streq arg (codes "dark")
    then (dark_fg, dark_bg)
    else if streq arg (codes "light")
    then (light_fg, light_bg)
    else old

module _ {S : Type 0} (k : ℕ) where
  pub say-Leaves :
      (text : List ℕ) (s : Shell S)
      → IsValid s.console
      → Leaves (say (suc (suc k)) text s) s.settings s.console.con_fg s.console.con_bg
  unfolding say
  say-Leaves text s v =
      let (c, run, went, v') = print-Returns text v k in
      (record s { console = c }, rw (run, say) refl, v', refl, went.fg, went.bg)

  pub new_line-Leaves :
      (s : Shell S)
      → IsValid s.console
      → Leaves (new_line (suc (suc k)) s) s.settings s.console.con_fg s.console.con_bg
  unfolding new_line
  new_line-Leaves s v =
      let (c, run, went, v') = putchar-Returns v k 10 in
      (record s { console = c }, rw (run, new_line) refl, v', refl, went.fg, went.bg)

  pub say_line-Leaves :
      (text : List ℕ) (s : Shell S)
      → IsValid s.console
      → Leaves (say_line (suc (suc k)) text s) s.settings s.console.con_fg s.console.con_bg
  unfolding say_line
  say_line-Leaves text s v =
      let (t, run, v', same, fg, bg) = say-Leaves text s v in
      let (u, run', v'', same', fg', bg') = new_line-Leaves t v' in
      (u, rw (run, say_line) run', v'', same' ∙ same, fg' ∙ fg, bg' ∙ bg)

  pub say_msg-Leaves :
      (id : MsgId) (s : Shell S)
      → IsValid s.console
      → Leaves (say_msg (suc (suc k)) id s) s.settings s.console.con_fg s.console.con_bg
  unfolding say_msg
  say_msg-Leaves id s v =
      let (text, there) = msg_there id s.settings in
      let (u, run, v', same, fg, bg) = say_line-Leaves text s v in
      (u, rw (there, say_msg) run, v', same, fg, bg)

  -- For a valid console and fuel of at least 2: `cmd_lang` returns, the console is valid and has its
  -- colours, and the settings are the same but for the language, which is Turkish for `tr`, English
  -- for `en`, and unchanged for any other word.
  pub cmd_lang-Leaves :
      (arg : List ℕ) (s : Shell S)
      → IsValid s.console
      → Leaves
          (cmd_lang (suc (suc k)) arg s)
          (if streq arg (codes "tr")
            then record s.settings { language = lang_tr }
            else if streq arg (codes "en")
            then record s.settings { language = lang_en }
            else s.settings)
          s.console.con_fg
          s.console.con_bg
  unfolding cmd_lang
  cmd_lang-Leaves arg s v = elim (Bool-cases (streq arg (codes "tr"))) [
    | inl tr ↦ rw tr (
        say_msg-Leaves msg_lang_set
          (record s { settings = record s.settings { language = lang_tr } }) v)
    | inr n ↦ elim (Bool-cases (streq arg (codes "en"))) [
      | inl en ↦
          rw (n, en)
            (say_msg-Leaves msg_lang_set
              (record s { settings = record s.settings { language = lang_en } }) v)
      | inr other ↦ rw (n, other) (say-Leaves (codes "?" ++ 10 ∷ []) s v)
    ]
  ]

  use_theme-Leaves :
      (fg bg : ℕ) (s : Shell S)
      → IsValid s.console
      → Leaves (use_theme (suc (suc k)) fg bg s) (record s.settings { fg = fg; bg = bg }) fg bg
  unfolding use_theme set_color clear_screen
  use_theme-Leaves fg bg s v = say_msg-Leaves msg_theme_set _ (
      clear_screen-IsValid {s = set_color fg bg s.console}
        (record { wide = v.wide; high = v.high; x_in = v.x_in; y_in = v.y_in }))

  -- For a valid console and fuel of at least 2: `cmd_theme` returns and the console is valid; the
  -- settings and the console both have the colours of the theme for `dark` and `light`, and their own
  -- colours for any other word, and the language is the same.
  pub cmd_theme-Leaves :
      (arg : List ℕ) (s : Shell S)
      → IsValid s.console
      → Leaves
          (cmd_theme (suc (suc k)) arg s)
          (record s.settings {
            fg = (theme arg (s.settings.fg, s.settings.bg)).0;
            bg = (theme arg (s.settings.fg, s.settings.bg)).1;
          })
          (theme arg (s.console.con_fg, s.console.con_bg)).0
          (theme arg (s.console.con_fg, s.console.con_bg)).1
  unfolding cmd_theme
  cmd_theme-Leaves arg s v = elim (Bool-cases (streq arg (codes "dark"))) [
    | inl dark ↦ rw dark (use_theme-Leaves dark_fg dark_bg s v)
    | inr n ↦ elim (Bool-cases (streq arg (codes "light"))) [
      | inl light ↦ rw (n, light) (use_theme-Leaves light_fg light_bg s v)
      | inr other ↦ rw (n, other) (say-Leaves (codes "?" ++ 10 ∷ []) s v)
    ]
  ]
