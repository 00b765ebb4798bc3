-- ===== src/Heap/Kfree.antt =====
-- `kfree` of src/mm/heap.c: the heap that it leaves.
use arc_monark.Base.{
  ℕ, ◌+◌, ◌^◌, ◌≤◌, ◌<◌, ◌≡◌, refl, sym, ap, subst, ◌∙◌, inl, inr, true, false, Option, some, List,
  [], ◌∷◌, ◌++◌, append-nil, append_assoc, arith, Bool-cases, length-append,
}
use arc_monark.Pmm.{sub64}
use arc_monark.Heap.{null, heap_base, Block, sizeof_block, Heap, join_prev, kfree}
use arc_monark.Heap.Chain.{
  Cell, Edge, edge, edge_after, edge_after-snoc, snoc-cases, first, header, Chain, Chain-frame,
  Chain-edge, Chain-append,
}
use arc_monark.Heap.Inv.{
  base, live, total, IsHeap, live-append, total-append, live-free, live-used, total-le,
  first-append_cons,
}
use arc_monark.Heap.Join.{
  loose, big, absorb, absorb-here, absorb-Chain, absorb-same, next_post, JoinedNext,
  join_prev-first, join_prev-used, join_prev-free,
}
use arc_monark.Heap.Free.{
  live-next_post, At, at, freed, wide, marked, after, joined, after-same, wide-aligned,
  kfree-join_prev,
}

-- What `kfree` leaves: a heap again, in which the blocks that are given out are those before the
-- call but the freed one. The bytes, the pages and the interrupt flag are as before.
pub record Freed {S : Type 0} (h h' : Heap S) (pre post xs : List Cell) : Type 0 where
  pub valid : IsHeap h' xs
  pub kept : live xs ≡ live pre ++ live post
  pub bytes : h'.bytes ≡ h.bytes
  pub heap_end : h'.heap_end ≡ h.heap_end
  pub pages : h'.pages ≡ h.pages
  pub flags : h'.flags ≡ h.flags

used-after :
    (used base_end top : ℕ) (pre post xs : List Cell) (c : Cell)
    → c.free ≡ false
    → used ≡ total (live (pre ++ c ∷ post))
    → used + base_end ≤ top
    → top < 2 ^ 64
    → live xs ≡ live pre ++ live post
    → sub64 used c.size ≡ total (live xs)
unfolding total
used-after used base_end top pre post xs c busy is room small kept = omega (
  arith,
  ap total kept,
  total-append (live pre) (live post),
  ap total (live-append pre (c ∷ post)),
  total-append (live pre) (live (c ∷ post)),
  ap total (live-used c post busy),
)

-- Where the block in front is used, the freed one stays by itself on that side.
module _ {S : Type 0} (h : Heap S) (pre : List Cell) (c : Cell) (post : List Cell)
    (v : IsHeap h (pre ++ c ∷ post)) (used : c.free ≡ false)
    (apart : (edge_after base pre).free ≡ false) where
  abbrev front : Edge
  front = edge_after base pre

  abbrev kept_list : List Cell
  kept_list = pre ++ wide c post ∷ next_post post

  place : At h pre c post
  place = at v

  kept_joined : JoinedNext (marked h front c post) (freed c) front.prev post h.heap_end
  kept_joined = joined h front c post place.here place.high place.top

  kept-Chain : Chain (after h front c post).mem base kept_list null h.heap_end
  kept-Chain =
      Chain-append (after h front c post).mem base pre (wide c post ∷ next_post post) null
        h.heap_end
        (Chain-frame h.mem _ base pre c.addr front.end
          (λ a lo up.
            after-same h front c post place.here place.high place.top a
              (omega (arith, place.here.1)))
          place.before)
        (
          kept_joined.here,
          place.here.1,
          rw apart,
          place.here.3,
          wide-aligned h front c post place.here place.high place.top,
          Chain-edge _ (loose (wide c post)) (edge (wide c post)) (next_post post) null h.heap_end
              refl (omega arith) kept_joined.quiet kept_joined.chain,
        )

  kept_live : live kept_list ≡ live pre ++ live post
  kept_live =
      live-append pre (wide c post ∷ next_post post)
      ∙ ap (λ t. live pre ++ t)
          (live-free (wide c post) (next_post post) refl ∙ live-next_post post)

  kfree-keep :
      join_prev c.addr (after h front c post) ≡ some (tt, after h front c post)
      → (h' : Heap S) × (kfree (c.addr + sizeof_block) h ≡ some (tt, h'))
        × Freed h h' pre post kept_list
  kfree-keep last = (
    record (after h front c post) { flags = h.flags },
    kfree-join_prev h front c post place.here place.high place.top used last,
    record {
      valid = record {
        chain = kept-Chain;
        head =
            v.head
            ∙ (first-append_cons pre post c null
                ∙ sym (first-append_cons pre (next_post post) (wide c post) null));
        some_block = omega (arith, length-append {0} pre (wide c post ∷ next_post post));
        used =
            used-after h.used_bytes heap_base h.heap_end pre post kept_list c used v.used
              (omega (arith, v.used, total-le h.mem base (pre ++ c ∷ post) null h.heap_end v.chain))
              v.top kept_live;
        paged = v.paged;
        top = v.top;
      };
      kept = kept_live;
      bytes = refl;
      heap_end = refl;
      pages = refl;
      flags = refl;
    },
  )

-- Where the block in front is free, it takes the freed one in.
module _ {S : Type 0} (h : Heap S) (pre : List Cell) (b c : Cell) (post : List Cell)
    (v : IsHeap h (pre ++ b ∷ c ∷ post)) (used : c.free ≡ false) (free : b.free ≡ true) where
  abbrev link : ℕ
  link = (edge_after base pre).prev

  abbrev joined_list : List Cell
  joined_list = pre ++ big b (wide c post) ∷ next_post post

  spot : At h pre b (c ∷ post)
  spot = at v

  spot_here : Chain h.mem (edge b) (c ∷ post) null h.heap_end
  spot_here = spot.here.5

  spot_high : 0x1000 ≤ c.addr
  spot_high = omega (arith, spot.high, spot_here.1)

  spot_joined : JoinedNext (marked h (edge b) c post) (freed c) b.addr post h.heap_end
  spot_joined = joined h (edge b) c post spot_here spot_high spot.top

  below : (a : ℕ) → a < c.addr → (after h (edge b) c post).mem a ≡ h.mem a
  below = after-same h (edge b) c post spot_here spot_high spot.top

  abbrev final : ℕ → Option Block
  final = absorb (after h (edge b) c post).mem b (wide c post) link (next_post post)

  last_step :
      join_prev c.addr (after h (edge b) c post)
      ≡ some (tt, record (after h (edge b) c post) { mem = final })
  last_step =
      join_prev-free (after h (edge b) c post) (wide c post) (next_post post) h.heap_end
        (omega (arith, spot_high)) b link (omega (arith, spot.high))
        (below b.addr (omega (arith, spot_here.1)) ∙ spot.here.0) spot_joined.here free spot_here.1
        spot.top spot_joined.chain

  final-Chain : Chain final base joined_list null h.heap_end
  final-Chain =
      Chain-append final base pre (big b (wide c post) ∷ next_post post) null h.heap_end
        (Chain-frame h.mem final base pre b.addr (edge_after base pre).end
          (λ a lo up.
            absorb-same _ b (wide c post) link (next_post post) h.heap_end spot_here.1
              spot_joined.chain a (omega (arith, spot.here.1))
            ∙ below a (omega (arith, spot.here.1, spot_here.1)))
          spot.before)
        (
          absorb-here _ b (wide c post) link (next_post post) h.heap_end spot_here.1
              spot_joined.chain,
          spot.here.1,
          spot.here.2,
          spot.here.3,
          omega (arith, spot.here.4, wide-aligned h (edge b) c post spot_here spot_high spot.top),
          Chain-edge final (loose (big b (wide c post))) (edge (big b (wide c post)))
              (next_post post) null h.heap_end refl (omega arith)
              (rw spot_joined.quiet (ground arith))
              (absorb-Chain _ b (wide c post) link (next_post post) h.heap_end spot_here.1
                spot_joined.chain),
        )

  joined_live : live joined_list ≡ live (pre ++ b ∷ []) ++ live post
  unfolding live
  joined_live =
      live-append pre (big b (wide c post) ∷ next_post post)
      ∙ (ap (λ t. live pre ++ t)
            (live-free (big b (wide c post)) (next_post post) free ∙ live-next_post post)
          ∙ ap (λ t. t ++ live post)
              (sym (
                live-append pre (b ∷ [])
                ∙ (ap (λ t. live pre ++ t) (live-free b [] free) ∙ append-nil (live pre)))))

  kfree-join :
      (h' : Heap S) × (kfree (c.addr + sizeof_block) h ≡ some (tt, h'))
      × Freed h h' (pre ++ b ∷ []) post joined_list
  kfree-join = (
    record (after h (edge b) c post) { mem = final; flags = h.flags },
    kfree-join_prev h (edge b) c post spot_here spot_high spot.top used last_step,
    record {
      valid = record {
        chain = final-Chain;
        head =
            v.head
            ∙ (first-append_cons pre (c ∷ post) b null
                ∙ sym (first-append_cons pre (next_post post) (big b (wide c post)) null));
        some_block = omega (arith, length-append {0} pre (big b (wide c post) ∷ next_post post));
        used =
            used-after h.used_bytes heap_base h.heap_end (pre ++ b ∷ []) post joined_list c used
              (v.used ∙ ap (λ t. total (live t)) (sym (append_assoc pre (b ∷ []) (c ∷ post))))
              (omega
                (arith, v.used, total-le h.mem base (pre ++ b ∷ c ∷ post) null h.heap_end v.chain))
              v.top joined_live;
        paged = v.paged;
        top = v.top;
      };
      kept = joined_live;
      bytes = refl;
      heap_end = refl;
      pages = refl;
      flags = refl;
    },
  )

-- the result of `kfree` on the block `c` between `pre` and `post`
abbrev pub KfreeResult : {S : Type 0} → Heap S → List Cell → Cell → List Cell → Type 0
KfreeResult {S} h pre c post =
    (xs : List Cell) × (h' : Heap S) × (kfree (c.addr + sizeof_block) h ≡ some (tt, h'))
    × Freed h h' pre post xs

module _ {S : Type 0} (h : Heap S) (c : Cell) (post : List Cell) (used : c.free ≡ false) where
  kfree-first : IsHeap h (c ∷ post) → KfreeResult h [] c post
  kfree-first v =
      let last =
        join_prev-first (after h base c post) (wide c post) (next_post post) h.heap_end
          (omega arith) (kept_joined h [] c post v used refl).here in
      let (h', runs, done) = kfree-keep h [] c post v used refl last in
      (kept_list h [] c post v used refl, h', runs, done)

  kfree-behind :
      (pre : List Cell) (b : Cell)
      → b.free ≡ false
      → IsHeap h (pre ++ b ∷ c ∷ post)
      → KfreeResult h (pre ++ b ∷ []) c post
  kfree-behind pre b busy v =
      let v' : IsHeap h ((pre ++ b ∷ []) ++ c ∷ post) =
        subst (IsHeap h) (sym (append_assoc pre (b ∷ []) (c ∷ post))) v in
      let behind : edge_after base (pre ++ b ∷ []) ≡ edge b = edge_after-snoc base pre b in
      let apart : (edge_after base (pre ++ b ∷ [])).free ≡ false = ap (λ e. e.free) behind ∙ busy in
      let spot : At h pre b (c ∷ post) = at v in
      let here : At h (pre ++ b ∷ []) c post = at v' in
      let last =
        join_prev-used (after h (edge_after base (pre ++ b ∷ [])) c post) (wide c post)
          (next_post post) h.heap_end (omega (arith, spot.high, spot.here.5.1)) b
          (edge_after base pre).prev (omega (arith, spot.high))
          (after-same h (edge_after base (pre ++ b ∷ [])) c post here.here here.high here.top b.addr
              (omega (arith, spot.here.5.1))
            ∙ spot.here.0)
          ((kept_joined h (pre ++ b ∷ []) c post v' used apart).here
            ∙ ap (λ (e : Edge). some (header (wide c post) e.prev (first (next_post post) null)))
                behind)
          busy in
      let (h', runs, done) = kfree-keep h (pre ++ b ∷ []) c post v' used apart last in
      (kept_list h (pre ++ b ∷ []) c post v' used apart, h', runs, done)

  -- On a well-formed heap, `kfree` of a block that is given out succeeds, and leaves a heap in
  -- which the blocks that are given out are those before but this one, whatever neighbours it is
  -- joined with.
  pub kfree-Freed : (pre : List Cell) → IsHeap h (pre ++ c ∷ post) → KfreeResult h pre c post
  kfree-Freed pre v = elim (snoc-cases pre) [
    | inl e ↦
        subst (λ p. KfreeResult h p c post) (sym e)
          (kfree-first (subst (λ p. IsHeap h (p ++ c ∷ post)) e v))
    | inr (ys, b, e) ↦
        subst (λ p. KfreeResult h p c post) (sym e)
          (let v' : IsHeap h (ys ++ b ∷ c ∷ post) =
              subst (IsHeap h) (append_assoc ys (b ∷ []) (c ∷ post))
                (subst (λ p. IsHeap h (p ++ c ∷ post)) e v) in
            elim (Bool-cases b.free) [
              | inl free ↦
                  let (h', runs, done) = kfree-join h ys b c post v' used free in
                  (joined_list h ys b c post v' used free, h', runs, done)
              | inr busy ↦ kfree-behind ys b busy v'
            ])
  ]
