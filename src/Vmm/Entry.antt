-- ===== src/Vmm/Entry.antt =====
-- The entries of the page tables of src/mm/vmm.c: their bits, and the indices of an address.
use arc_monark.Base.{
  ℕ, ◌+◌, ◌-◌, ◌*◌, ◌/◌, ◌%◌, ◌^◌, ◌<◌, bit_and, bit_or, ◌≡◌, refl, ap, ◌∙◌, true, false, arith,
}
use arc_monark.Base.Bits.{bit_or-one, bit_or-two, bit_or-four, bit_and-one}
use arc_monark.Base.Masks.{bit_and-ones, bit_and-shift, bit_or-low, bit_or-high}
use arc_monark.Vmm.{
  page_addr_mask, is_present, entry_addr, link, leaf, pml4_index, pdpt_index, pd_index, pt_index,
}

pub entry_addr-mod : (e : ℕ) → entry_addr e ≡ e / 4096 % 2 ^ 40 * 4096
unfolding entry_addr
entry_addr-mod e = omega (arith, bit_and-shift 12 e (2 ^ 40 - 1), bit_and-ones 40 (e / 4096))

-- the frame that an entry leads to
abbrev pub frame_of : ℕ → ℕ
frame_of e = entry_addr e / 4096

pub is_present-odd : (e : ℕ) → e % 2 ≡ 1 → is_present e ≡ true
unfolding is_present
is_present-odd e h = ground (arith, bit_and-one e)

pub is_present-zero : is_present 0 ≡ false
unfolding is_present
is_present-zero = refl

pub link_sum : (f : ℕ) → link (f * 4096) ≡ f * 4096 + 7
unfolding link
link_sum f =
    let one : bit_or (f * 4096) 1 ≡ f * 4096 + 1 = omega (arith, bit_or-one (f * 4096)) in
    let two : bit_or (f * 4096 + 1) 2 ≡ f * 4096 + 3 = omega (arith, bit_or-two (f * 4096 + 1)) in
    let four : bit_or (f * 4096 + 3) 4 ≡ f * 4096 + 7 = omega (arith, bit_or-four (f * 4096 + 3)) in
    rw (one, two, four) refl

pub link-is_present : (f : ℕ) → is_present (link (f * 4096)) ≡ true
link-is_present f = is_present-odd (link (f * 4096)) (omega (arith, link_sum f))

pub frame_of-link : (f : ℕ) → f < 2 ^ 40 → frame_of (link (f * 4096)) ≡ f
frame_of-link f lt = omega (arith, entry_addr-mod (link (f * 4096)), link_sum f)

pub leaf-odd : (phys flags : ℕ) → leaf phys flags % 2 ≡ 1
unfolding leaf
leaf-odd phys flags = omega (arith, bit_or-one (bit_or (bit_and phys page_addr_mask) flags))

pub leaf-is_present : (phys flags : ℕ) → is_present (leaf phys flags) ≡ true
leaf-is_present phys flags = is_present-odd (leaf phys flags) (leaf-odd phys flags)

-- The entry for a page, bit by bit: those of the address, those of the flags and the bit 0.
pub leaf_sum :
    (phys flags : ℕ)
    → flags % 2 ^ 52 < 4096
    → leaf phys flags
      ≡ flags / 2 ^ 52 * 2 ^ 52 + phys / 4096 % 2 ^ 40 * 4096 + flags % 2 ^ 52 / 2 * 2 + 1
unfolding leaf
leaf_sum phys flags low =
    let frame : ℕ = phys / 4096 % 2 ^ 40 in
    let high : ℕ = flags / 2 ^ 52 in
    let addr : bit_and phys page_addr_mask ≡ frame * 4096 =
      omega (arith, bit_and-shift 12 phys (2 ^ 40 - 1), bit_and-ones 40 (phys / 4096)) in
    let cut : flags ≡ high * 2 ^ 40 * 4096 + flags % 2 ^ 52 = omega arith in
    let both : bit_or (frame * 4096) flags ≡ high * 2 ^ 52 + frame * 4096 + flags % 2 ^ 52 =
      ap (bit_or (frame * 4096)) cut
      ∙ omega (
        arith,
        bit_or-low 12 frame (high * 2 ^ 40) (flags % 2 ^ 52) low,
        bit_or-high 40 high frame (omega arith),
      ) in
    rw addr (omega (arith, both, bit_or-one (bit_or (frame * 4096) flags)))

-- the number of the page that an address lies in, as far as the tables look at it
abbrev pub page : ℕ → ℕ
page virt = virt / 4096 % 2 ^ 36

-- the four indices together
pub page_lem :
    (v : ℕ) → ((pml4_index v * 512 + pdpt_index v) * 512 + pd_index v) * 512 + pt_index v ≡ page v
unfolding pml4_index pdpt_index pd_index pt_index
page_lem v = omega (
  arith,
  bit_and-ones 9 (v / 2 ^ 39),
  bit_and-ones 9 (v / 2 ^ 30),
  bit_and-ones 9 (v / 2 ^ 21),
  bit_and-ones 9 (v / 2 ^ 12),
)

pub index-lt :
    (v : ℕ) → (pml4_index v < 512) × (pdpt_index v < 512) × (pd_index v < 512) × (pt_index v < 512)
unfolding pml4_index pdpt_index pd_index pt_index
index-lt v = (
  omega (arith, bit_and-ones 9 (v / 2 ^ 39)),
  omega (arith, bit_and-ones 9 (v / 2 ^ 30)),
  omega (arith, bit_and-ones 9 (v / 2 ^ 21)),
  omega (arith, bit_and-ones 9 (v / 2 ^ 12)),
)
