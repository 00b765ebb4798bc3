-- ===== src/Heap/Alloc.antt =====
-- `kmalloc` of src/mm/heap.c, once a block is found: it is cut, marked and given out.
use arc_monark.Base.{
  ℕ, ◌+◌, ◌-◌, ◌%◌, ◌≤◌, ◌<◌, ◌≡◌, refl, sym, ap, subst, ◌∙◌, ◌⊎◌, true, false, Option, some, List,
  [], ◌∷◌, ◌++◌, arith, ltb, if◌then◌else◌, length-append,
}
use arc_monark.Pmm.{add64}
use arc_monark.Heap.{null, Block, sizeof_block, PageSource, Heap}
use arc_monark.Heap.Chain.{Cell, Edge, edge_after, Chain, Chain-frame, Chain-append}
use arc_monark.Heap.Edit.{cell}
use arc_monark.Heap.Inv.{
  base, live, total, IsHeap, live-append, total-append, live-free, live-used, total-le,
  first-append_cons,
}
use arc_monark.Heap.Free.{At, at}
use arc_monark.Heap.Use.{taken, given, use_block_lem, use_mem, use_mem-same, use_mem-Chain}
use arc_monark.Heap.Pages.{use_block}
use arc_monark.Heap.Extend.{Intact, Unchanged}
use arc_monark.Heap.Inv.{edge_after-le}

-- What `kmalloc` gives when it does not fail: the address behind the header of a block that was
-- free, holds the size, and is now given out, beside all that were given out before, whose bytes
-- are as they were.
pub record Allocated {S : Type 0} (h h' : Heap S) (xs : List Cell) (size ptr : ℕ) : Type 0 where
  pub pre : List Cell
  pub block : Cell
  pub post : List Cell
  pub valid : IsHeap h' (pre ++ block ∷ post)
  pub address : ptr ≡ block.addr + sizeof_block
  pub aligned : ptr % 16 ≡ 0
  pub used : block.free ≡ false
  pub enough : size ≤ block.size
  pub kept : live xs ≡ live pre ++ live post
  pub bytes : Intact h h' (live xs)
  pub flags : h'.flags ≡ h.flags

-- The result of `kmalloc` for `size` bytes on a heap with the blocks `xs`.
abbrev pub Outcome : {S : Type 0} → Heap S → Heap S → List Cell → ℕ → ℕ → Type 0
Outcome h h' xs size ptr = ((ptr ≡ null) × Unchanged h h' xs) ⊎ Allocated h h' xs size ptr

module _ (P : PageSource) (h : Heap P.State) (pre : List Cell) (c : Cell) (post : List Cell)
    (v : IsHeap h (pre ++ c ∷ post)) (free : c.free ≡ true) (size : ℕ) (aligned : size % 16 ≡ 0)
    (fits : size ≤ c.size) where
  spot : At h pre c post
  spot = at v

  abbrev front : Edge
  front = edge_after base pre

  front_pos : 0 < front.end
  front_pos = omega (arith, edge_after-le h.mem base pre c.addr front.end spot.before)

  abbrev mem' : ℕ → Option Block
  mem' = use_mem P h front c post h.heap_end size front_pos v.top spot.here fits aligned free

  abbrev h' : Heap P.State
  h' = record h { mem = mem'; used_bytes = add64 h.used_bytes (given c size) }

  abbrev left : List Cell
  left =
      if ltb (c.size - size) 48
      then []
      else cell (c.addr + sizeof_block + size) (c.size - size - sizeof_block) true ∷ []

  abbrev out : Cell
  out = cell c.addr (given c size) false

  taken_lem : taken c size ++ post ≡ out ∷ (left ++ post)
  taken_lem = ground arith

  live-left : live (left ++ post) ≡ live post
  unfolding live
  live-left = ground arith

  live_before : live (pre ++ c ∷ post) ≡ live pre ++ live post
  live_before = live-append pre (c ∷ post) ∙ ap (λ t. live pre ++ t) (live-free c post free)

  live_after : live (pre ++ out ∷ (left ++ post)) ≡ live pre ++ out ∷ live post
  live_after =
      live-append pre (out ∷ (left ++ post))
      ∙ ap (λ t. live pre ++ t) (live-used out (left ++ post) refl ∙ ap (λ t. out ∷ t) live-left)

  out-Chain : Chain mem' base (pre ++ out ∷ (left ++ post)) null h.heap_end
  out-Chain =
      Chain-append mem' base pre (out ∷ (left ++ post)) null h.heap_end
        (Chain-frame h.mem mem' base pre c.addr front.end
          (λ a lo up.
            use_mem-same P h front c post h.heap_end size front_pos v.top spot.here fits aligned
              free a up)
          spot.before)
        (subst (λ t. Chain mem' front t null h.heap_end) taken_lem
          (use_mem-Chain P h front c post h.heap_end size front_pos v.top spot.here fits aligned
            free))

  used_after : add64 h.used_bytes (given c size) ≡ total (live (pre ++ out ∷ (left ++ post)))
  unfolding total
  used_after = omega (
    arith,
    v.used,
    ap total live_before,
    ap total live_after,
    total-append (live pre) (live post),
    total-append (live pre) (out ∷ live post),
    total-le mem' base (pre ++ out ∷ (left ++ post)) null h.heap_end out-Chain,
    v.top,
  )

  -- A free block that is large enough is cut, marked, counted and given out.
  pub use_block-Allocated :
      (now : Heap P.State) × (use_block P c.addr size h ≡ some (c.addr + sizeof_block, now))
      × Allocated h now (pre ++ c ∷ post) size (c.addr + sizeof_block)
  use_block-Allocated = (
    h',
    use_block_lem P h front c post h.heap_end size front_pos v.top spot.here fits aligned free,
    record {
      pre = pre;
      block = out;
      post = left ++ post;
      valid = record {
        chain = out-Chain;
        head =
            v.head
            ∙ (first-append_cons pre post c null
                ∙ sym (first-append_cons pre (left ++ post) out null));
        some_block = omega (arith, length-append {0} pre (out ∷ (left ++ post)));
        used = used_after;
        paged = v.paged;
        top = v.top;
      };
      address = refl;
      aligned = omega (arith, spot.here.3);
      used = refl;
      enough = ground arith;
      kept = live_before ∙ ap (λ t. live pre ++ t) (sym live-left);
      bytes = λ front b back cut i lt. refl;
      flags = refl;
    },
  )
