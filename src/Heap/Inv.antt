-- ===== src/Heap/Inv.antt =====
-- What holds of the heap of src/mm/heap.c between two calls.
use arc_monark.Base.{
  ℕ, ◌+◌, ◌*◌, ◌%◌, ◌^◌, ◌≤◌, ◌<◌, ◌≡◌, refl, sym, subst, true, false, Option, List, [], ◌∷◌, ◌++◌,
  arith, if◌then◌else◌, length,
}
use arc_monark.Heap.{null, Block, sizeof_block, heap_base, Heap}
use arc_monark.Heap.Chain.{Cell, Edge, edge, edge_after, first, Chain}

-- in front of the first block
abbrev pub base : Edge
base = record { prev = null; free = false; end = heap_base }

-- the blocks that are given out
unfoldable pub live : List Cell → List Cell
live [] = []
live (c ∷ xs) = if c.free then live xs else c ∷ live xs

unfoldable pub total : List Cell → ℕ
total [] = 0
total (c ∷ xs) = c.size + total xs

-- The headers in memory are those of the blocks `xs`, which lie between the base and the end of
-- the heap, and `used_bytes` is the size of those that are given out.
pub record IsHeap {S : Type 0} (h : Heap S) (xs : List Cell) : Type 0 where
  pub chain : Chain h.mem base xs null h.heap_end
  pub head : h.head ≡ first xs null
  pub some_block : 0 < length xs
  pub used : h.used_bytes ≡ total (live xs)
  pub paged : h.heap_end % 4096 ≡ 0
  pub top : h.heap_end < 2 ^ 64

pub live-append : (xs ys : List Cell) → live (xs ++ ys) ≡ live xs ++ live ys
unfolding live
live-append [] ys = refl
live-append (c ∷ xs) ys = ground (arith, live-append xs ys)

pub total-append : (xs ys : List Cell) → total (xs ++ ys) ≡ total xs + total ys
unfolding total
total-append [] ys = omega arith
total-append (c ∷ xs) ys = omega (arith, total-append xs ys)

pub live-free : (c : Cell) (xs : List Cell) → c.free ≡ true → live (c ∷ xs) ≡ live xs
unfolding live
live-free c xs h = rw h

pub live-used : (c : Cell) (xs : List Cell) → c.free ≡ false → live (c ∷ xs) ≡ c ∷ live xs
unfolding live
live-used c xs h = subst (λ b. (if b then live xs else c ∷ live xs) ≡ c ∷ live xs) (sym h) refl

-- All blocks fit between the edge and the end.
pub total-le :
    (m : ℕ → Option Block) (e : Edge) (xs : List Cell) (stop hi : ℕ)
    → Chain m e xs stop hi
    → total (live xs) + e.end ≤ hi
unfolding live total
total-le m e [] stop hi h = omega arith
total-le m e (c ∷ xs) stop hi h = ground (arith, total-le m (edge c) xs stop hi h.5)

-- so many headers have room
pub length-le :
    (m : ℕ → Option Block) (e : Edge) (xs : List Cell) (stop hi : ℕ)
    → Chain m e xs stop hi
    → length xs * sizeof_block + e.end ≤ hi
length-le m e [] stop hi h = omega arith
length-le m e (c ∷ xs) stop hi h = omega (arith, length-le m (edge c) xs stop hi h.5)

pub edge_after-le :
    (m : ℕ → Option Block) (e : Edge) (xs : List Cell) (stop hi : ℕ)
    → Chain m e xs stop hi
    → e.end ≤ (edge_after e xs).end
edge_after-le m e [] stop hi h = omega arith
edge_after-le m e (c ∷ xs) stop hi h = omega (arith, edge_after-le m (edge c) xs stop hi h.5)

pub first-append_cons :
    (xs ys : List Cell) (c : Cell) (stop : ℕ) → first (xs ++ c ∷ ys) stop ≡ first xs c.addr
first-append_cons [] ys c stop = refl
first-append_cons (x ∷ xs) ys c stop = refl
