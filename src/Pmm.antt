-- ===== src/Pmm.antt =====
-- src/mm/pmm.c and include/pmm.h: the physical memory manager, a bitmap with one bit for each 4
-- KiB frame, set where the frame is used. Its definitions are here; `Pmm.Bitmap` is about the
-- bits, `Pmm.Count` about the number of used frames, `Pmm.Alloc` about taking and giving back
-- frames.
pub mod Bitmap
pub mod Count
pub mod Alloc
pub mod Init
pub mod Boot
pub mod Ready
pub mod Start
mod Tests
use arc_monark.Base.{
  ℕ, zero, suc, ◌+◌, ◌-◌, ◌*◌, ◌/◌, ◌%◌, ◌^◌, bit_and, bit_or, Bool, not, Option, none, some, List,
  ◌==◌, if◌then◌else◌, get_or, set,
}

abbrev pub page_size : ℕ
page_size = 4096

-- `uint64_t` sums and differences
abbrev pub add64 : ℕ → ℕ → ℕ
add64 a b = (a + b) % 2 ^ 64

abbrev pub sub64 : ℕ → ℕ → ℕ
sub64 a b = (a + 2 ^ 64 - b) % 2 ^ 64

-- The static data of pmm.c; `bitmap` is the memory that the pointer of that name leads to, and
-- `bitmap_at` the pointer itself.
pub record Pmm : Type 0 where
  pub hhdm_offset : ℕ
  pub bitmap_at : ℕ
  pub bitmap : List ℕ
  pub total_frames : ℕ
  pub used_frames : ℕ
  pub bitmap_size : ℕ

-- `1 << k`, and `~x` of a 32-bit `int`
abbrev pub bit : ℕ → ℕ
bit k = 2 ^ k

abbrev pub not32 : ℕ → ℕ
not32 x = 2 ^ 32 - 1 - x

-- A byte of the bitmap. Beyond its end this reads 0, and a write changes nothing; that the accesses
-- of the allocator stay inside is a theorem of `Pmm.Bitmap`.
abbrev pub byte : Pmm → ℕ → ℕ
byte s i = get_or s.bitmap i 0

pub set_bit : ℕ → ℕ → ℕ
set_bit b k = bit_or b (bit k) % 256

pub clear_bit : ℕ → ℕ → ℕ
clear_bit b k = bit_and b (not32 (bit k)) % 256

unfoldable pub test_bit : ℕ → ℕ → Bool
test_bit b k = not (bit_and b (bit k) == 0)

pub bmp_set : ℕ → Pmm → Pmm
bmp_set f s = record s { bitmap = set s.bitmap (f / 8) (set_bit (byte s (f / 8)) (f % 8)) }

pub bmp_clear : ℕ → Pmm → Pmm
bmp_clear f s = record s { bitmap = set s.bitmap (f / 8) (clear_bit (byte s (f / 8)) (f % 8)) }

unfoldable pub bmp_test : Pmm → ℕ → Bool
bmp_test s f = test_bit (byte s (f / 8)) (f % 8)

-- the body of the loop in `pmm_alloc_frame` when the bit is clear
pub take_frame : ℕ → Pmm → Pmm
unfolding bmp_set
take_frame i s = let s' : Pmm = bmp_set i s in record s' { used_frames = add64 s.used_frames 1 }

-- `for (i = ...; i < total_frames; i++)`, with the rounds that are left
pub alloc_loop : ℕ → ℕ → Pmm → Option ℕ × Pmm
alloc_loop zero i s = (none, s)
alloc_loop (suc rounds) i s =
    let rest = alloc_loop rounds (i + 1) s in
    if not (bmp_test s i) then (some (i * page_size % 2 ^ 64), take_frame i s) else rest

-- the end of `pmm_free_frame`, where the bit is set
pub release_frame : ℕ → Pmm → Pmm
unfolding bmp_clear
release_frame i s =
    let s' : Pmm = bmp_clear i s in record s' { used_frames = sub64 s.used_frames 1 }

-- `none` is `NULL`.
pub pmm_alloc_frame : Pmm → Option ℕ × Pmm
unfolding alloc_loop
pmm_alloc_frame s = alloc_loop (s.total_frames - 1) 1 s

pub pmm_free_frame : ℕ → Pmm → Pmm
unfolding release_frame
pmm_free_frame frame s =
    let idx : ℕ = frame / page_size in if not (bmp_test s idx) then s else release_frame idx s

unfoldable pub pmm_total_frames : Pmm → ℕ
pmm_total_frames s = s.total_frames

unfoldable pub pmm_used_frames : Pmm → ℕ
pmm_used_frames s = s.used_frames

unfoldable pub pmm_free_frames : Pmm → ℕ
pmm_free_frames s = sub64 s.total_frames s.used_frames
