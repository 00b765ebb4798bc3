-- ===== src/Vmm.antt =====
-- src/mm/vmm.c and include/vmm.h: the page tables, a tree of four levels in frames of memory. Its
-- definitions are here; `Vmm.Entry` is about single entries, `Vmm.Tree` about the tree, `Vmm.Next`
-- `Vmm.Fresh` and `Vmm.Level` about one step down, `Vmm.Write` about the last write, `Vmm.Map` and `Vmm.Unmap` about the two operations.
pub mod Entry
pub mod Tree
pub mod Next
pub mod Fresh
pub mod Level
pub mod Write
pub mod Runs
pub mod Map
pub mod Unmap
mod Tests
use arc_monark.Base.{
  ℕ, zero, suc, ◌+◌, ◌*◌, ◌/◌, ◌^◌, bit_and, bit_or, Bool, true, false, not, ◌&&◌, none, some, List,
  ◌∷◌, ltb, leb, ◌==◌, if◌then◌else◌,
}
use arc_monark.Base.State.{Command, pure, fault, ◌>>=◌, ◌>>◌}
use arc_monark.Pmm.{Pmm, page_size, add64, pmm_alloc_frame}

abbrev pub page_present : ℕ
page_present = 1

abbrev pub page_write : ℕ
page_write = 2

abbrev pub page_user : ℕ
page_user = 4

abbrev pub page_addr_mask : ℕ
page_addr_mask = 0x000FFFFFFFFFF000

pub pml4_index : ℕ → ℕ
pml4_index v = bit_and (v / 2 ^ 39) 0x1FF

pub pdpt_index : ℕ → ℕ
pdpt_index v = bit_and (v / 2 ^ 30) 0x1FF

pub pd_index : ℕ → ℕ
pd_index v = bit_and (v / 2 ^ 21) 0x1FF

pub pt_index : ℕ → ℕ
pt_index v = bit_and (v / 2 ^ 12) 0x1FF

-- The static data of vmm.c; the state of pmm.c, with `hhdm_offset`; the memory, a word of 64 bits at
-- each address that 8 divides; the register that holds the root; and the pages that were flushed from
-- the translation buffer, the last one in front.
pub record Vmm : Type 0 where
  pub words : ℕ → ℕ
  pub pmm : Pmm
  pub kernel_pml4 : ℕ
  pub cr3 : ℕ
  pub flushed : List ℕ

abbrev pub phys_to_virt : Vmm → ℕ → ℕ
phys_to_virt s phys = add64 phys s.pmm.hhdm_offset

-- the address of `table[index]`
abbrev pub slot : ℕ → ℕ → ℕ
slot table index = add64 table (8 * index)

-- `memset(next, 0, PAGE_SIZE)`
abbrev pub zero_page : ℕ → (ℕ → ℕ) → ℕ → ℕ
zero_page next words a = if leb next a && ltb a (next + page_size) then 0 else words a

abbrev pub write_word : ℕ → ℕ → (ℕ → ℕ) → ℕ → ℕ
write_word p v words a = if a == p then v else words a

-- `table[index] = v`
pub set_entry : ℕ → ℕ → ℕ → Command Vmm (Unit {0})
set_entry table index v s =
    if table == 0
    then none
    else some (tt, record s { words = write_word (slot table index) v s.words })

pub is_present : ℕ → Bool
is_present e = not (bit_and e page_present == 0)

-- the address that an entry leads to
pub entry_addr : ℕ → ℕ
entry_addr e = bit_and e page_addr_mask

-- the entry for a new table
pub link : ℕ → ℕ
link phys = bit_or (bit_or (bit_or phys page_present) page_write) page_user

-- `get_next_level` from the call of `pmm_alloc_frame` on; the result 0 is NULL
pub new_level : ℕ → ℕ → Command Vmm ℕ
new_level table index s =
    let (frame, pmm') = pmm_alloc_frame s.pmm in
    elim frame [
      | none ↦ some (0, record s { pmm = pmm' })
      | some phys ↦
          let next : ℕ = phys_to_virt s phys in
          some (
            next,
            record s {
              pmm = pmm';
              words = write_word (slot table index) (link phys) (zero_page next s.words);
            },
          )
    ]

-- A read through NULL faults.
pub get_next_level : ℕ → ℕ → Bool → Command Vmm ℕ
get_next_level table index allocate s =
    let e : ℕ = s.words (slot table index) in
    if table == 0
    then none
    else (if is_present e
        then some (phys_to_virt s (entry_addr e), s)
        else (if not allocate then some (0, s) else new_level table index s))

abbrev pub invlpg : ℕ → Command Vmm (Unit {0})
invlpg virt s = some (tt, record s { flushed = virt ∷ s.flushed })

-- `(phys & PAGE_ADDR_MASK) | flags | PAGE_PRESENT`
pub leaf : ℕ → ℕ → ℕ
leaf phys flags = bit_or (bit_or (bit_and phys page_addr_mask) flags) page_present

pub vmm_map : ℕ → ℕ → ℕ → ℕ → Command Vmm (Unit {0})
vmm_map pml4 virt phys flags = do
  pdpt ← get_next_level pml4 (pml4_index virt) true
  pd ← get_next_level pdpt (pdpt_index virt) true
  pt ← get_next_level pd (pd_index virt) true
  set_entry pt (pt_index virt) (leaf phys flags)
  invlpg virt

pub vmm_unmap : ℕ → ℕ → Command Vmm (Unit {0})
vmm_unmap pml4 virt = do
  pdpt ← get_next_level pml4 (pml4_index virt) false
  if pdpt == 0 then pure tt else do
    pd ← get_next_level pdpt (pdpt_index virt) false
    if pd == 0 then pure tt else do
      pt ← get_next_level pd (pd_index virt) false
      if pt == 0 then pure tt else do set_entry pt (pt_index virt) 0; invlpg virt

pub vmm_kernel_pml4 : Vmm → ℕ
vmm_kernel_pml4 s = s.kernel_pml4

-- `for (i = ...; i < 512; i++) kernel_pml4[i] = current[i];`, with the rounds that are left
pub copy_entries : ℕ → ℕ → ℕ → ℕ → (ℕ → ℕ) → ℕ → ℕ
copy_entries zero new current i words = words
copy_entries (suc k) new current i words =
    copy_entries k new current (i + 1) (write_word (slot new i) (words (slot current i)) words)

-- A frame that is NULL is not noticed: it is taken for the address 0.
pub vmm_init : Vmm → Vmm
vmm_init s =
    let current : ℕ = phys_to_virt s (bit_and s.cr3 page_addr_mask) in
    let (frame, pmm') = pmm_alloc_frame s.pmm in
    let new_phys : ℕ = elim frame [ none ↦ 0 | some p ↦ p ] in
    let new : ℕ = phys_to_virt s new_phys in
    record s {
      pmm = pmm';
      kernel_pml4 = new;
      words = copy_entries 256 new current 256 (zero_page new s.words);
      cr3 = new_phys;
    }
