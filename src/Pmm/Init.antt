-- ===== src/Pmm/Init.antt =====
-- `pmm_init` of src/mm/pmm.c, on the memory map that the boot loader passes.
use arc_monark.Base.{
  ℕ, zero, suc, ◌+◌, ◌/◌, Bool, ◌&&◌, Option, none, some, List, [], ◌∷◌, ltb, leb, ◌==◌,
  if◌then◌else◌, replicate,
}
use arc_monark.Pmm.{Pmm, page_size, add64, sub64, release_frame, take_frame}

-- `struct limine_memmap_entry`
pub record MemEntry : Type 0 where
  pub base : ℕ
  pub length : ℕ
  pub kind : ℕ

abbrev pub limine_memmap_usable : ℕ
limine_memmap_usable = 0

unfoldable pub usable : MemEntry → Bool
usable e = e.kind == limine_memmap_usable

-- the first loop: the end of the highest usable entry
unfoldable pub highest_top : List MemEntry → ℕ → ℕ
highest_top [] highest = highest
highest_top (e ∷ es) highest =
    let top : ℕ = add64 e.base e.length in
    highest_top es (if usable e && ltb highest top then top else highest)

-- the second loop: where the bitmap goes, or NULL
unfoldable pub place_bitmap : ℕ → ℕ → List MemEntry → ℕ
place_bitmap size offset [] = 0
place_bitmap size offset (e ∷ es) =
    let rest = place_bitmap size offset es in
    if usable e && leb size e.length then add64 e.base offset else rest

-- `for (j = ...; j < e->length; j += PAGE_SIZE)`, with the rounds that are left; the body is that of
-- `pmm_free_frame`
unfoldable pub clear_pages : ℕ → ℕ → ℕ → Pmm → Pmm
clear_pages zero base j s = s
clear_pages (suc k) base j s =
    clear_pages k base (j + page_size) (release_frame (add64 base j / page_size) s)

-- so many rounds has a loop up to `n` in steps of a page
abbrev pub page_rounds : ℕ → ℕ
page_rounds n = (n + 4095) / page_size

-- the third loop
unfoldable pub clear_usable : List MemEntry → Pmm → Pmm
clear_usable [] s = s
clear_usable (e ∷ es) s =
    clear_usable es (if usable e then clear_pages (page_rounds e.length) e.base 0 s else s)

-- the last loop
unfoldable pub set_pages : ℕ → ℕ → ℕ → Pmm → Pmm
set_pages zero phys i s = s
set_pages (suc k) phys i s =
    set_pages k phys (i + page_size) (take_frame (add64 phys i / page_size) s)

-- `pmm_init`, once both answers of the boot loader are there; `none` is a write through NULL
unfoldable pub init_from : ℕ → List MemEntry → Option Pmm
init_from offset entries =
    let total : ℕ = highest_top entries 0 / page_size in
    let size : ℕ = add64 total 7 / 8 in
    let at : ℕ = place_bitmap size offset entries in
    let start : Pmm = record {
      hhdm_offset = offset;
      bitmap_at = at;
      bitmap = replicate size 0xFF;
      total_frames = total;
      used_frames = total;
      bitmap_size = size;
    } in
    if (at == 0) && ltb 0 size
    then none
    else some (set_pages (page_rounds size) (sub64 at offset) 0 (clear_usable entries start))

-- `none` where the machine stops
unfoldable pub pmm_init : Option (List MemEntry) → Option ℕ → Option Pmm
pmm_init none offset = none
pmm_init (some entries) none = none
pmm_init (some entries) (some offset) = init_from offset entries
