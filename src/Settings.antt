-- ===== src/Settings.antt =====
-- src/kernel/settings.c, src/kernel/lang.c, include/settings.h, include/lang.h and include/config.h:
-- the settings, and the messages in two languages.
use arc_monark.Base.{ℕ, Option, none, some, List}
use arc_monark.Base.Text.{codes}

-- `enum lang`
pub data Lang : Type 0 where
  lang_tr lang_en : Lang

-- `enum msg_id`
pub data MsgId : Type 0 where
  msg_welcome msg_help_hint msg_help_list msg_about msg_unknown_cmd msg_lang_set msg_theme_set :
      MsgId

pub record Settings : Type 0 where
  pub language : Lang
  pub fg : ℕ
  pub bg : ℕ

abbrev pub default_lang : Lang
default_lang = lang_tr

abbrev pub theme_fg : ℕ
theme_fg = 0xFFFFFFFF

abbrev pub theme_bg : ℕ
theme_bg = 0xFF000000

abbrev pub dark_fg : ℕ
dark_fg = 0xFFE0E0E0

abbrev pub dark_bg : ℕ
dark_bg = 0xFF101010

abbrev pub light_fg : ℕ
light_fg = 0xFF202020

abbrev pub light_bg : ℕ
light_bg = 0xFFF0F0F0

pub settings_init : Settings
settings_init = record { language = default_lang; fg = theme_fg; bg = theme_bg }

-- `table`
unfoldable pub table : Lang → MsgId → Option (List ℕ)
table lang_tr msg_welcome = some (codes "ArcMonark 64-bit long mode")
table lang_tr msg_help_hint = some (codes "'help' yaz.")
table lang_tr msg_help_list =
    some (codes "komutlar: help, clear, about, mem, mouse, threads, events, lang, theme, close")
table lang_tr msg_about = some (codes "ArcMonark v0.1 - 64-bit hobi cekirdegi")
table lang_tr msg_unknown_cmd = some (codes "bilinmeyen komut: ")
table lang_tr msg_lang_set = some (codes "dil degistirildi")
table lang_tr msg_theme_set = some (codes "tema degistirildi")
table lang_en msg_welcome = some (codes "ArcMonark 64-bit long mode")
table lang_en msg_help_hint = some (codes "type 'help'.")
table lang_en msg_help_list =
    some (codes "commands: help, clear, about, mem, mouse, threads, events, lang, theme, close")
table lang_en msg_about = some (codes "ArcMonark v0.1 - 64-bit hobby kernel")
table lang_en msg_unknown_cmd = some (codes "unknown command: ")
table lang_en msg_lang_set = some (codes "language changed")
table lang_en msg_theme_set = some (codes "theme changed")

-- `none` is NULL.
unfoldable pub msg : MsgId → Settings → Option (List ℕ)
msg id s = elim (table s.language id) [ none ↦ table lang_tr id | some text ↦ some text ]
