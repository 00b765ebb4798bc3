-- ===== src/Heap.antt =====
-- src/mm/heap.c and include/heap.h: the kernel heap, a doubly linked list of blocks whose headers
-- stand in the memory that they manage. Its definitions are here and, for the functions that ask for
-- pages, in `Heap.Pages`. `Heap.Chain` is about the list of blocks, `Heap.Inv` about what holds
-- between two calls, `Heap.Walk` about the walks along the list, `Heap.Edit` and `Heap.Use` about
-- cutting a block, `Heap.Join`, `Heap.Free` and `Heap.Kfree` about `kfree`, `Heap.Grow`,
-- `Heap.Append` and `Heap.Extend` about new pages, `Heap.Alloc`, `Heap.Kmalloc` and
-- `Heap.Overflow` about `kmalloc`,
-- `Heap.Boot` about `heap_init`, `Heap.Locate`, `Heap.Copied`, `Heap.Move` and `Heap.Realloc` about
-- `krealloc`, and `Heap.Held`, `Heap.History`, `Heap.Callers` and `Heap.Promise` about any sequence
-- of calls.
pub mod Align
pub mod Pages
pub mod Chain
pub mod Edit
pub mod Use
pub mod Inv
pub mod Walk
pub mod Grow
pub mod Append
pub mod Extend
pub mod Alloc
pub mod Kmalloc
pub mod Overflow
pub mod Boot
pub mod Join
pub mod Free
pub mod Kfree
pub mod Locate
pub mod Copied
pub mod Move
pub mod Realloc
pub mod Held
pub mod History
pub mod Callers
pub mod Promise
mod Examples
mod Tests
use arc_monark.Base.{
  ℕ, zero, suc, ◌+◌, ◌-◌, ◌/◌, ◌^◌, bit_and, Bool, true, false, not, ◌&&◌, Option, none, some, ltb,
  leb, ◌==◌, if◌then◌else◌,
}
use arc_monark.Base.Irq
use arc_monark.Base.Irq.{Flags}
use arc_monark.Pmm.{page_size, add64, sub64}

abbrev pub heap_base : ℕ
heap_base = 0xFFFFA00000000000

abbrev pub heap_init_pages : ℕ
heap_init_pages = 16

abbrev pub alignment : ℕ
alignment = 16

abbrev pub page_write : ℕ
page_write = 2

abbrev pub null : ℕ
null = 0

-- `block_t`, and its size
pub record Block : Type 0 where
  pub size : ℕ
  pub free : Bool
  pub next : ℕ
  pub prev : ℕ

abbrev pub sizeof_block : ℕ
sizeof_block = 32

-- What heap.c takes from pmm.c and vmm.c: `pmm_alloc_frame`, and `vmm_map` on the kernel's table,
-- which is `none` where it faults.
pub record PageSource : Type 1 where
  pub State : Type 0
  pub alloc_frame : State → Option ℕ × State
  pub map_page : ℕ → ℕ → ℕ → State → Option State

-- The static data of heap.c, with the memory that it reads and writes: the headers by address, and
-- the bytes behind them, kept apart, so that what the write of a header does to the bytes of free
-- memory that it takes is not seen; the interrupt flag; and the state of the page source.
pub record Heap (S : Type 0) : Type 0 where
  pub mem : ℕ → Option Block
  pub bytes : ℕ → ℕ
  pub heap_end : ℕ
  pub head : ℕ
  pub used_bytes : ℕ
  pub flags : Flags
  pub pages : S

-- A command: `none` is a read or write through a pointer that leads to no header, a fault in
-- `vmm_map`, or a loop that has used up its rounds.
abbrev pub M : Type 0 → Type 0 → Type 0
M S A = Heap S → Option (A × Heap S)

abbrev pub update : {A : Type 0} → (ℕ → A) → ℕ → A → ℕ → A
update f p v a = if a == p then v else f a

-- `~x` on `size_t`
abbrev pub not64 : ℕ → ℕ
not64 x = 2 ^ 64 - 1 - x

pub align_up : ℕ → ℕ → ℕ
align_up n a = bit_and (sub64 (add64 n a) 1) (not64 (sub64 a 1))

module _ {S : Type 0} where
  abbrev pub pure : {A : Type 0} → A → M S A
  pure a h = some (a, h)

  infixl 5 ◌>>=◌ ◌>>◌
  abbrev pub ◌>>=◌ : {A B : Type 0} → M S A → (A → M S B) → M S B
  ◌>>=◌ m f h = elim (m h) [ none ↦ none | some (a, h') ↦ f a h' ]

  abbrev pub ◌>>◌ : {A B : Type 0} → M S A → M S B → M S B
  ◌>>◌ m n h = elim (m h) [ none ↦ none | some (a, h') ↦ n h' ]

  -- `*p`
  pub load : ℕ → M S Block
  load p h = if p == null then none else elim (h.mem p) [ none ↦ none | some b ↦ some (b, h) ]

  pub store : ℕ → Block → M S (Unit {0})
  store p b h = some (tt, record h { mem = update h.mem p (some b) })

  -- `if (p) p->prev = q;`
  pub set_prev : ℕ → ℕ → M S (Unit {0})
  unfolding store
  set_prev p q = if p == null then pure tt else do n ← load p; store p (record n { prev = q })

  -- `f = irq_save()`, and `irq_restore(f)`
  abbrev pub lock : M S Flags
  lock h = let (f, now) = Irq.irq_save h.flags in some (f, record h { flags = now })

  abbrev pub unlock : Flags → M S (Unit {0})
  unlock f h = some (tt, record h { flags = Irq.irq_restore f h.flags })

  abbrev pub add_used : ℕ → M S (Unit {0})
  add_used n h = some (tt, record h { used_bytes = add64 h.used_bytes n })

  abbrev pub sub_used : ℕ → M S (Unit {0})
  sub_used n h = some (tt, record h { used_bytes = sub64 h.used_bytes n })

  pub split_block : ℕ → ℕ → M S (Unit {0})
  unfolding store
  split_block b size = do
    old ← load b
    let remaining = sub64 old.size size
    if ltb remaining (sizeof_block + alignment) then pure tt else do
      let nb = add64 (add64 b sizeof_block) size
      store nb
          (record { size = sub64 remaining sizeof_block; free = true; next = old.next; prev = b })
      set_prev old.next nb
      now ← load b
      store b (record now { size = size; next = nb })

  -- The rounds that a walk along the list is given: one for each header that the heap has room for,
  -- and one for the end.
  abbrev pub rounds : Heap S → ℕ
  rounds h = (h.heap_end - heap_base) / sizeof_block + 1

  -- `while (b) { if (b->free && b->size >= size) break; b = b->next; }`
  pub find_fit : ℕ → ℕ → ℕ → Heap S → Option ℕ
  find_fit zero p size h = none
  find_fit (suc k) p size h = elim (p == null) [
    | true ↦ some null
    | false ↦ elim (h.mem p) [
      | none ↦ none
      | some b ↦ elim (b.free && leb size b.size) [
        | true ↦ some p
        | false ↦ find_fit k b.next size h
      ]
    ]
  ]

  -- `while (last->next) last = last->next;`
  pub find_last : ℕ → ℕ → Heap S → Option ℕ
  find_last zero p h = none
  find_last (suc k) p h = elim (h.mem p) [
    | none ↦ none
    | some b ↦ elim (b.next == null) [ true ↦ some p | false ↦ find_last k b.next h ]
  ]

  -- both walks from `head`
  pub walk_fit : ℕ → M S ℕ
  walk_fit size h = elim (find_fit (rounds h) h.head size h) [ none ↦ none | some p ↦ some (p, h) ]

  pub walk_last : M S ℕ
  walk_last h = elim (find_last (rounds h) h.head h) [ none ↦ none | some p ↦ some (p, h) ]

  -- `kfree`: `b` joined with the block behind it, if that is free
  pub join_next : ℕ → M S (Unit {0})
  unfolding store
  join_next b = do
    blk ← load b
    if blk.next == null then pure tt else do
      n ← load blk.next
      if not n.free then pure tt else do
        store b (record blk { size = add64 blk.size (add64 sizeof_block n.size); next = n.next })
        set_prev n.next b

  -- and the block in front joined with `b`, if that is free
  pub join_prev : ℕ → M S (Unit {0})
  unfolding store
  join_prev b = do
    blk ← load b
    if blk.prev == null then pure tt else do
      p ← load blk.prev
      if not p.free then pure tt else do
        store blk.prev
            (record p { size = add64 p.size (add64 sizeof_block blk.size); next = blk.next })
        set_prev blk.next blk.prev

  -- `kfree` from the test of `b->free` on, when it is not set
  pub release : ℕ → Block → M S (Unit {0})
  unfolding store
  release b blk = do
    store b (record blk { free = true })
    sub_used blk.size
    join_next b
    join_prev b

  pub kfree : ℕ → M S (Unit {0})
  kfree ptr = if ptr == null then pure tt else do
    f ← lock
    let b = sub64 ptr sizeof_block
    blk ← load b
    if blk.free then unlock f else do release b blk; unlock f

  pub heap_used_bytes : Heap S → ℕ
  heap_used_bytes h = h.used_bytes
