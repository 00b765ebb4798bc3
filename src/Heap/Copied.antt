-- ===== src/Heap/Copied.antt =====
-- `memcpy` in `krealloc` of src/mm/heap.c, and the room between two blocks.
use arc_monark.Base.{
  ℕ, zero, suc, ◌+◌, ◌≤◌, ◌<◌, ◌≡◌, refl, sym, ap, ◌∙◌, ◌⊎◌, inl, inr, Option, List, [], ◌∷◌, ◌++◌,
  arith, ◌==◌, ==_ne, Bool-cases,
}
use arc_monark.Heap.{Block}
use arc_monark.Heap.Chain.{Cell, Edge, edge, Chain}
use arc_monark.Heap.Pages.{copy}

-- `copy` writes nothing outside its target.
pub copy-outside : (np ptr n a : ℕ) (m : ℕ → ℕ) → (a < np) ⊎ (np + n ≤ a) → copy np ptr n m a ≡ m a
copy-outside np ptr zero a m out = refl
copy-outside np ptr (suc n) a m out =
    rw (==_ne a (np + n) (ground (arith, out))) (copy-outside np ptr n a m (ground (arith, out)))

-- Into a target apart from the source, `copy` brings the source's bytes.
pub copy-inside :
    (np ptr n i : ℕ) (m : ℕ → ℕ)
    → (np + n ≤ ptr) ⊎ (ptr + n ≤ np)
    → i < n
    → copy np ptr n m (np + i) ≡ m (ptr + i)
copy-inside np ptr zero i m apart lt = absurd (omega arith)
copy-inside np ptr (suc n) i m apart lt = elim (Bool-cases (np + i == np + n)) [
  | inl last ↦
      let same : i ≡ n = ground arith in
      rw last (
        copy-outside np ptr n (ptr + n) m (ground (arith, apart))
        ∙ ap (λ k. m (ptr + k)) (sym same))
  | inr early ↦ rw early (copy-inside np ptr n i m (ground (arith, apart)) (ground arith))
]

-- A block ends before those behind it begin.
pub Chain-before :
    (m : ℕ → Option Block) (e : Edge) (mid : List Cell) (d : Cell) (post : List Cell) (stop hi : ℕ)
    → Chain m e (mid ++ d ∷ post) stop hi
    → e.end ≤ d.addr
Chain-before m e [] d post stop hi h = h.1
Chain-before m e (x ∷ mid) d post stop hi h =
    omega (arith, h.1, Chain-before m (edge x) mid d post stop hi h.5)
