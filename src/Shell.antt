-- ===== src/Shell.antt =====
-- The commands of src/kernel/kernel.c that work on the settings and the console, and the choice of a
-- command. Its definitions are here; `Shell.Runs` is about what a command leaves behind,
-- `Shell.Pointer` and `Shell.Under` about the pointer that the
-- command mouse draws, and `Shell.Tools`, `Shell.Speech` and `Shell.Loop` about mem and events.
pub mod Runs
pub mod Pointer
pub mod Under
pub mod Tools
pub mod Speech
pub mod Loop
mod Tests
use arc_monark.Base.{
  ℕ, Bool, true, false, Option, none, some, List, [], ◌∷◌, ◌++◌, ◌==◌, if◌then◌else◌,
}
use arc_monark.Base.Text.{codes}
use arc_monark.Console.{Console, set_color, color, clear_screen, putchar, print}
use arc_monark.Settings.{
  Lang, lang_tr, lang_en, Settings, MsgId, msg_help_list, msg_about, msg_unknown_cmd, msg_lang_set,
  msg_theme_set, dark_fg, dark_bg, light_fg, light_bg, msg,
}

-- The state that the commands share: the settings, the console, and what the others work on.
pub record Shell (S : Type 0) : Type 0 where
  pub settings : Settings
  pub console : Console
  pub rest : S

-- what `streq` answers on two strings
unfoldable pub streq : List ℕ → List ℕ → Bool
streq [] [] = true
streq [] (d ∷ ds) = false
streq (c ∷ cs) [] = false
streq (c ∷ cs) (d ∷ ds) = let rest = streq cs ds in if c == d then rest else false

-- what `str_starts_with` answers on two strings: the string behind the prefix, or NULL
unfoldable pub str_starts_with : List ℕ → List ℕ → Option (List ℕ)
str_starts_with cs [] = some cs
str_starts_with [] (p ∷ ps) = none
str_starts_with (c ∷ cs) (p ∷ ps) =
    let rest = str_starts_with cs ps in if c == p then rest else none

-- `cmd_close`: the ports that are written
abbrev pub cmd_close : List (ℕ × ℕ)
cmd_close = (0x604, 0x2000) ∷ (0xB004, 0x2000) ∷ []

-- the commands that work on the rest of the state, and the writing of ports
pub record Others (S : Type 0) : Type 0 where
  pub cmd_mem : Shell S → Option (Shell S)
  pub cmd_mouse : Shell S → Option (Shell S)
  pub cmd_threads : Shell S → Option (Shell S)
  pub cmd_events : Shell S → Option (Shell S)
  pub outw : List (ℕ × ℕ) → Shell S → Option (Shell S)

module _ {S : Type 0} where
  -- `print(text);`
  unfoldable pub say : ℕ → List ℕ → Shell S → Option (Shell S)
  say k text s = elim (print k text s.console) [
    | none ↦ none
    | some c ↦ some (record s { console = c })
  ]

  -- `putchar('\n');`
  unfoldable pub new_line : ℕ → Shell S → Option (Shell S)
  new_line k s = elim (putchar k 10 s.console) [
    | none ↦ none
    | some c ↦ some (record s { console = c })
  ]

  -- `print(text); putchar('\n');`
  unfoldable pub say_line : ℕ → List ℕ → Shell S → Option (Shell S)
  say_line k text s = elim (say k text s) [ none ↦ none | some t ↦ new_line k t ]

  -- `print(msg(id)); putchar('\n');`, where `none` is also a read through NULL
  unfoldable pub say_msg : ℕ → MsgId → Shell S → Option (Shell S)
  say_msg k id s = elim (msg id s.settings) [ none ↦ none | some text ↦ say_line k text s ]

  unfoldable pub cmd_lang : ℕ → List ℕ → Shell S → Option (Shell S)
  cmd_lang k arg s =
      if streq arg (codes "tr")
      then say_msg k msg_lang_set (record s { settings = record s.settings { language = lang_tr } })
      else if streq arg (codes "en")
      then say_msg k msg_lang_set (record s { settings = record s.settings { language = lang_en } })
      else say k (codes "?" ++ 10 ∷ []) s

  -- `set_color` and what follows, once the theme is set
  unfoldable pub use_theme : ℕ → ℕ → ℕ → Shell S → Option (Shell S)
  use_theme k fg bg s = say_msg k msg_theme_set (record s {
    settings = record s.settings { fg = fg; bg = bg };
    console = clear_screen (set_color fg bg s.console);
  })

  unfoldable pub cmd_theme : ℕ → List ℕ → Shell S → Option (Shell S)
  cmd_theme k arg s =
      if streq arg (codes "dark")
      then use_theme k dark_fg dark_bg s
      else if streq arg (codes "light")
      then use_theme k light_fg light_bg s
      else say k (codes "?" ++ 10 ∷ []) s

  -- the command for a line, from the test for `lang` on
  unfoldable pub run_setting : ℕ → Others S → List ℕ → Shell S → Option (Shell S)
  run_setting k o cmd s = elim (str_starts_with cmd (codes "lang ")) [
    | some arg ↦ cmd_lang k arg s
    | none ↦ elim (str_starts_with cmd (codes "theme ")) [
      | some arg ↦ cmd_theme k arg s
      | none ↦
          if streq cmd (codes "close")
          then o.outw cmd_close s
          else elim (msg msg_unknown_cmd s.settings) [
            | none ↦ none
            | some text ↦ elim (say k text s) [ none ↦ none | some t ↦ say_line k cmd t ]
          ]
    ]
  ]

  unfoldable pub run_command : ℕ → Others S → List ℕ → Shell S → Option (Shell S)
  run_command k o cmd s =
      if streq cmd []
      then some s
      else if streq cmd (codes "help")
      then say_msg k msg_help_list s
      else if streq cmd (codes "clear")
      then some (record s { console = clear_screen s.console })
      else if streq cmd (codes "about")
      then say_msg k msg_about s
      else if streq cmd (codes "mem")
      then o.cmd_mem s
      else if streq cmd (codes "mouse")
      then o.cmd_mouse s
      else if streq cmd (codes "threads")
      then o.cmd_threads s
      else if streq cmd (codes "events")
      then o.cmd_events s
      else run_setting k o cmd s
