-- ===== src/Heap/Pages.antt =====
-- src/mm/heap.c: the functions that may ask for new pages, up to `kmalloc` and `krealloc`.
use arc_monark.Base.{
  ℕ, zero, suc, ◌+◌, ◌-◌, ◌*◌, ◌/◌, ◌%◌, ◌^◌, Bool, true, false, not, none, some, leb, ◌==◌,
  if◌then◌else◌,
}
use arc_monark.Pmm.{page_size, add64, sub64}
use arc_monark.Heap.{
  heap_base, heap_init_pages, alignment, page_write, null, sizeof_block, PageSource, M, align_up,
  pure, ◌>>=◌, ◌>>◌, load, store, lock, unlock, add_used, split_block, walk_fit, walk_last, kfree,
}

-- `memcpy(np, ptr, n)` on the bytes behind the headers
abbrev pub copy : ℕ → ℕ → ℕ → (ℕ → ℕ) → ℕ → ℕ
copy np ptr zero m = m
copy np ptr (suc n) m =
    let m' : ℕ → ℕ = copy np ptr n m in λ a. if a == np + n then m' (ptr + n) else m' a

module _ (P : PageSource) where
  open P use {State, alloc_frame, map_page}

  -- the loop of `grow_pages`, with the pages that are left; `false` is its failure
  unfoldable pub grow_pages : ℕ → M State Bool
  grow_pages zero h = some (true, h)
  grow_pages (suc k) h =
      let (frame, pages') = alloc_frame h.pages in
      elim frame [
        | none ↦ some (false, record h { pages = pages' })
        | some f ↦ elim (map_page h.heap_end f page_write pages') [
          | none ↦ none
          | some mapped ↦
              grow_pages k (record h { heap_end = add64 h.heap_end page_size; pages = mapped })
        ]
      ]

  abbrev set_heap_end : ℕ → M State (Unit {0})
  set_heap_end e h = some (tt, record h { heap_end = e })

  -- `head = HEAP_BASE; ... used_bytes = 0;`
  abbrev set_head : ℕ → M State (Unit {0})
  set_head p h = some (tt, record h { head = p; used_bytes = 0 })

  -- `false` where the machine stops for want of memory
  unfoldable pub heap_init : M State Bool
  unfolding store
  heap_init = do
    set_heap_end heap_base
    grown ← grow_pages heap_init_pages
    if not grown then pure false else do
      store heap_base (record {
        size = heap_init_pages * page_size - sizeof_block;
        free = true;
        next = null;
        prev = null;
      })
      set_head heap_base
      pure true

  -- the new pages as a block behind the last one, or joined with it; `nb->prev` is not written
  -- before the walk
  unfoldable pub append_block : ℕ → ℕ → M State ℕ
  unfolding store
  append_block nb size = do
    store nb (record { size = size; free = true; next = null; prev = null })
    last ← walk_last
    l ← load last
    store last (record l { next = nb })
    n ← load nb
    store nb (record n { prev = last })
    if not l.free then pure nb else do
      store last (record l { size = add64 l.size (add64 sizeof_block size); next = null })
      pure last

  unfoldable pub extend_heap : ℕ → M State ℕ
  extend_heap min_size h =
      let need : ℕ = align_up (add64 min_size sizeof_block) page_size in
      let pages : ℕ = need / page_size in
      let nb : ℕ = h.heap_end in
      ◌>>=◌ (grow_pages pages)
        (λ grown.
          if not grown
          then pure null
          else append_block nb (sub64 (pages * page_size % 2 ^ 64) sizeof_block))
        h

  -- the end of `kmalloc`, with the block found
  unfoldable pub use_block : ℕ → ℕ → M State ℕ
  unfolding store
  use_block b size = do
    split_block b size
    blk ← load b
    store b (record blk { free = false })
    add_used blk.size
    pure (add64 b sizeof_block)

  -- `kmalloc`: the search, and the call of `extend_heap` where it finds nothing
  unfoldable pub find_block : ℕ → M State ℕ
  find_block size = do b ← walk_fit size; if b == null then extend_heap size else pure b

  -- `kmalloc` from `irq_save` on
  unfoldable pub alloc_aligned : ℕ → M State ℕ
  alloc_aligned size = do
    f ← lock
    b ← find_block size
    if b == null then (do unlock f; pure null) else do ptr ← use_block b size; unlock f; pure ptr

  unfoldable pub kmalloc : ℕ → M State ℕ
  kmalloc size = if size == 0 then pure null else alloc_aligned (align_up size alignment)

  abbrev copy_bytes : ℕ → ℕ → ℕ → M State (Unit {0})
  copy_bytes np ptr n h = some (tt, record h { bytes = copy np ptr n h.bytes })

  unfoldable pub krealloc : ℕ → ℕ → M State ℕ
  krealloc ptr size =
      if ptr == null
      then kmalloc size
      else (if size == 0 then (do kfree ptr; pure null) else do
        b ← load (sub64 ptr sizeof_block)
        if leb (align_up size alignment) b.size then pure ptr else do
          np ← kmalloc size
          if np == null then pure null else do copy_bytes np ptr b.size; kfree ptr; pure np)
