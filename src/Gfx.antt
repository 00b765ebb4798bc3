-- ===== src/Gfx.antt =====
-- src/gui/gfx.c and include/gfx.h: drawing into the framebuffer or into the back buffer. Its
-- definitions are here; `Gfx.Rows` is about the loops over rows of pixels.
mod Font
pub mod Rows
pub mod Screen
pub mod Fill
pub mod Text
pub mod Copy
pub mod Scroll
mod Tests
pub mod Under
pub mod Safe
pub mod Shapes
use arc_monark.Base.{
  ℕ, zero, suc, ◌+◌, ◌-◌, ◌*◌, ◌/◌, ◌%◌, ◌^◌, bit_and, bit_or, Bool, ◌||◌, Option, none, some, List,
  [], ◌∷◌, ltb, leb, ◌==◌, if◌then◌else◌, get_or,
}
use arc_monark.Gfx.Font.{font8x16}

-- The memory, a 32-bit word at each address that is a multiple of 4. Pointer arithmetic is not
-- wrapped: an object does not reach beyond the last address.
abbrev pub Memory : Type 0
Memory = ℕ → ℕ

abbrev pub write : ℕ → ℕ → Memory → Memory
write p v m a = if a == p then v else m a

abbrev pub add32 : ℕ → ℕ → ℕ
add32 a b = (a + b) % 2 ^ 32

abbrev pub sub32 : ℕ → ℕ → ℕ
sub32 a b = (a + (2 ^ 32 - b)) % 2 ^ 32

-- `GFX_RGB`
abbrev pub gfx_rgb : ℕ → ℕ → ℕ → ℕ
gfx_rgb r g b = bit_or (bit_or (bit_or 0xFF000000 (r * 2 ^ 16)) (g * 2 ^ 8)) b

-- what is read of `struct limine_framebuffer`
pub record Framebuffer : Type 0 where
  pub address : ℕ
  pub width : ℕ
  pub height : ℕ
  pub pitch : ℕ
  pub bpp : ℕ

-- The static data of gfx.c, with the memory.
pub record Gfx : Type 0 where
  pub g_hw : ℕ
  pub g_fb : ℕ
  pub g_width : ℕ
  pub g_height : ℕ
  pub g_pitch : ℕ
  pub g_bpp : ℕ
  pub memory : Memory

-- `none` is a request without a response.
pub gfx_init : Option (List Framebuffer) → Gfx → ℕ × Gfx
gfx_init none g = (0, g)
gfx_init (some []) g = (0, g)
gfx_init (some (f ∷ fs)) g = (
  1,
  record g {
    g_hw = f.address;
    g_fb = f.address;
    g_width = f.width % 2 ^ 32;
    g_height = f.height % 2 ^ 32;
    g_pitch = f.pitch % 2 ^ 32;
    g_bpp = f.bpp;
  },
)

-- `for (i = ...; i < n; i++) row[i] = ...;`, with the rounds that are left; `f i` is the value, read
-- from the memory as it is by then
unfoldable pub put_row : ℕ → ℕ → (ℕ → Memory → ℕ) → ℕ → Memory → Memory
put_row zero row f i m = m
put_row (suc k) row f i m = put_row k row f (i + 1) (write (row + i * 4) (f i m) m)

-- the loop over the rows `j`, with such a loop of `w` rounds as its body
unfoldable pub put_rows : ℕ → ℕ → (ℕ → ℕ) → (ℕ → ℕ → Memory → ℕ) → ℕ → Memory → Memory
put_rows zero w row f j m = m
put_rows (suc k) w row f j m = put_rows k w row f (j + 1) (put_row w (row j) (f j) 0 m)

-- the value `s[i]`
abbrev pub from : ℕ → ℕ → Memory → ℕ
from s i m = m (s + i * 4)

-- What `kmalloc` returns is a parameter; `memset` clears whole words, as the pitch is a multiple
-- of 4.
pub gfx_backbuffer_init : (ℕ → ℕ) → Gfx → Option Gfx
gfx_backbuffer_init kmalloc g =
    let bytes : ℕ = g.g_height * g.g_pitch in
    let buf : ℕ = kmalloc bytes in
    if buf == 0
    then none
    else some (record g { g_fb = buf; memory = put_row (bytes / 4) buf (λ i m. 0) 0 g.memory })

unfoldable pub gfx_present : Gfx → Gfx
gfx_present g =
    if g.g_fb == g.g_hw
    then g
    else record g { memory = put_row (g.g_height * g.g_pitch / 4) g.g_hw (from g.g_fb) 0 g.memory }

-- `if (x + w > limit) w = limit - x;`, where x is below the limit
abbrev pub clip : ℕ → ℕ → ℕ → ℕ
clip x w limit = if ltb limit (add32 x w) then limit - x else w

-- `x >= g_width || y >= g_height`
abbrev pub off_screen : ℕ → ℕ → Gfx → Bool
off_screen x y g = leb g.g_width x || leb g.g_height y

unfoldable pub gfx_present_rect : ℕ → ℕ → ℕ → ℕ → Gfx → Gfx
gfx_present_rect x y w h g =
    let off : ℕ → ℕ = λ j. add32 y j * g.g_pitch + x * 4 in
    if g.g_fb == g.g_hw then g else if off_screen x y g then g else record g {
      memory =
          put_rows (clip y h g.g_height) (clip x w g.g_width) (λ j. g.g_hw + off j)
            (λ j. from (g.g_fb + off j)) 0 g.memory;
    }

unfoldable pub gfx_copy_out : ℕ → ℕ → ℕ → ℕ → ℕ → Gfx → Gfx
gfx_copy_out x y w h dst g = record g {
  memory =
      put_rows h w (λ j. dst + j * w * 4) (λ j. from (g.g_fb + add32 y j * g.g_pitch + x * 4)) 0
        g.memory;
}

abbrev pub gfx_width : Gfx → ℕ
gfx_width g = g.g_width

abbrev pub gfx_height : Gfx → ℕ
gfx_height g = g.g_height

unfoldable pub gfx_pixel : ℕ → ℕ → ℕ → Gfx → Gfx
gfx_pixel x y argb g =
    if off_screen x y g
    then g
    else record g { memory = write (g.g_fb + y * g.g_pitch + x * 4) argb g.memory }

unfoldable pub gfx_fill_rect : ℕ → ℕ → ℕ → ℕ → ℕ → Gfx → Gfx
gfx_fill_rect x y w h argb g = if off_screen x y g then g else record g {
  memory =
      put_rows (clip y h g.g_height) (clip x w g.g_width)
        (λ j. g.g_fb + add32 y j * g.g_pitch + x * 4) (λ j i m. argb) 0 g.memory;
}

pub gfx_hline : ℕ → ℕ → ℕ → ℕ → Gfx → Gfx
gfx_hline x y len argb g = gfx_fill_rect x y len 1 argb g

pub gfx_vline : ℕ → ℕ → ℕ → ℕ → Gfx → Gfx
gfx_vline x y len argb g = gfx_fill_rect x y 1 len argb g

pub gfx_rect : ℕ → ℕ → ℕ → ℕ → ℕ → Gfx → Gfx
gfx_rect x y w h argb g =
    if (w == 0) || (h == 0)
    then g
    else gfx_vline (sub32 (add32 x w) 1) y h argb
        (gfx_vline x y h argb (gfx_hline x (sub32 (add32 y h) 1) w argb (gfx_hline x y w argb g)))

unfoldable pub gfx_clear : ℕ → Gfx → Gfx
gfx_clear argb g = gfx_fill_rect 0 0 g.g_width g.g_height argb g

unfoldable pub gfx_scroll_up : ℕ → ℕ → Gfx → Gfx
gfx_scroll_up dy argb g =
    if dy == 0
    then g
    else if leb g.g_height dy
    then gfx_clear argb g
    else gfx_fill_rect 0 (g.g_height - dy) g.g_width dy argb (record g {
      memory =
          put_rows (g.g_height - dy) g.g_width (λ y. g.g_fb + y * g.g_pitch)
            (λ y. from (g.g_fb + add32 y dy * g.g_pitch)) 0 g.memory;
    })

unfoldable pub gfx_blit : ℕ → ℕ → ℕ → ℕ → ℕ → Gfx → Gfx
gfx_blit src x y w h g = if off_screen x y g then g else record g {
  memory =
      put_rows (clip y h g.g_height) (clip x w g.g_width)
        (λ j. g.g_fb + add32 y j * g.g_pitch + x * 4) (λ j. from (src + j * w * 4)) 0 g.memory;
}

-- `(bits & (0x80 >> col)) ? fg : bg`
abbrev pub ink : ℕ → ℕ → ℕ → ℕ → ℕ
ink bits col fg bg = if bit_and bits (0x80 / 2 ^ col) == 0 then bg else fg

-- the loop over the columns, with the rounds that are left
unfoldable pub char_cols : ℕ → ℕ → ℕ → ℕ → ℕ → ℕ → ℕ → Gfx → Gfx
char_cols zero bits x y col fg bg g = g
char_cols (suc k) bits x y col fg bg g =
    char_cols k bits x y (col + 1) fg bg (gfx_pixel (add32 x col) y (ink bits col fg bg) g)

-- the loop over the rows of the glyph
unfoldable pub char_rows : ℕ → List ℕ → ℕ → ℕ → ℕ → ℕ → ℕ → Gfx → Gfx
char_rows zero glyph x y row fg bg g = g
char_rows (suc k) glyph x y row fg bg g =
    char_rows k glyph x y (row + 1) fg bg
      (char_cols 8 (get_or glyph row 0) x (add32 y row) 0 fg bg g)

-- the glyph of a character, which is a byte
unfoldable pub glyph_of : ℕ → List ℕ
glyph_of c = get_or font8x16 (if leb 128 c then 63 else c) []

unfoldable pub gfx_char : ℕ → ℕ → ℕ → ℕ → ℕ → Gfx → Gfx
gfx_char c x y fg bg g = char_rows 16 (glyph_of c) x y 0 fg bg g

-- on the characters before the end of the string
unfoldable pub gfx_text : List ℕ → ℕ → ℕ → ℕ → ℕ → Gfx → Gfx
gfx_text [] x y fg bg g = g
gfx_text (c ∷ s) x y fg bg g =
    let drawn : Gfx = gfx_char c x y fg bg g in
    let next : ℕ = add32 x 8 in
    if ltb drawn.g_width (add32 next 8)
    then gfx_text s 0 (add32 y 16) fg bg drawn
    else gfx_text s next y fg bg drawn
