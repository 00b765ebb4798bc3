-- ===== src/Heap/Chain.antt =====
-- The list of blocks of src/mm/heap.c: which headers the memory holds for a sequence of blocks, and
-- how such a sequence is taken apart and put together.
use arc_monark.Base.{
  ℕ, ◌+◌, ◌%◌, ◌≤◌, ◌<◌, ◌≡◌, refl, sym, ap, ◌∙◌, ◌⊎◌, inl, inr, Bool, false, ◌&&◌, Option, some,
  List, [], ◌∷◌, ◌++◌, arith, ==_refl,
}
use arc_monark.Heap.{null, Block, sizeof_block, update, alignment}

-- A block, by its address.
pub record Cell : Type 0 where
  pub addr : ℕ
  pub size : ℕ
  pub free : Bool

-- What a block has to know of those in front of it: the address of the last one, whether that is
-- free, and where the memory before it ends.
pub record Edge : Type 0 where
  pub prev : ℕ
  pub free : Bool
  pub end : ℕ

abbrev pub edge : Cell → Edge
edge c = record { prev = c.addr; free = c.free; end = c.addr + sizeof_block + c.size }

abbrev pub edge_after : Edge → List Cell → Edge
edge_after e [] = e
edge_after e (c ∷ xs) = edge_after (edge c) xs

-- the address of the first block, or `stop`
abbrev pub first : List Cell → ℕ → ℕ
first [] stop = stop
first (c ∷ xs) stop = c.addr

abbrev pub first_free : List Cell → Bool
first_free [] = false
first_free (c ∷ xs) = c.free

abbrev pub header : Cell → ℕ → ℕ → Block
header c prev next = record { size = c.size; free = c.free; next = next; prev = prev }

-- The memory holds the headers of the blocks `xs`, linked both ways, from the edge `e` to the
-- address `stop` behind them. The blocks are in order of address and do not overlap, they end by
-- `hi`, they are aligned, and no two free ones are neighbours.
abbrev pub Chain : (ℕ → Option Block) → Edge → List Cell → ℕ → ℕ → Type 0
Chain m e [] stop hi = e.end ≤ hi
Chain m e (c ∷ xs) stop hi =
    (m c.addr ≡ some (header c e.prev (first xs stop)))
    × (e.end ≤ c.addr)
    × ((e.free && c.free) ≡ false)
    × (c.addr % alignment ≡ 0)
    × (c.size % alignment ≡ 0)
    × Chain m (edge c) xs stop hi

pub Chain-le :
    (m : ℕ → Option Block) (e : Edge) (xs : List Cell) (stop hi : ℕ)
    → Chain m e xs stop hi
    → e.end ≤ hi
Chain-le m e [] stop hi h = h
Chain-le m e (c ∷ xs) stop hi h = omega (arith, Chain-le m (edge c) xs stop hi h.5)

-- more room behind the blocks
pub Chain-grow :
    (m : ℕ → Option Block) (e : Edge) (xs : List Cell) (stop hi hi' : ℕ)
    → hi ≤ hi'
    → Chain m e xs stop hi
    → Chain m e xs stop hi'
Chain-grow m e [] stop hi hi' le h = omega arith
Chain-grow m e (c ∷ xs) stop hi hi' le h =
    (h.0, h.1, h.2, h.3, h.4, Chain-grow m (edge c) xs stop hi hi' le h.5)

-- A change of memory outside the blocks does not matter.
pub Chain-frame :
    (m m' : ℕ → Option Block) (e : Edge) (xs : List Cell) (stop hi : ℕ)
    → ((a : ℕ) → e.end ≤ a → a < hi → m' a ≡ m a)
    → Chain m e xs stop hi
    → Chain m' e xs stop hi
Chain-frame m m' e [] stop hi same h = h
Chain-frame m m' e (c ∷ xs) stop hi same h = (
  same c.addr h.1 (omega (arith, Chain-le m (edge c) xs stop hi h.5)) ∙ h.0,
  h.1,
  h.2,
  h.3,
  h.4,
  Chain-frame m m' (edge c) xs stop hi (λ a lo up. same a (omega arith) up) h.5,
)

pub first-append : (xs ys : List Cell) (stop : ℕ) → first (xs ++ ys) stop ≡ first xs (first ys stop)
first-append [] ys stop = refl
first-append (c ∷ xs) ys stop = refl

pub Chain-split :
    (m : ℕ → Option Block) (e : Edge) (xs ys : List Cell) (stop hi : ℕ)
    → Chain m e (xs ++ ys) stop hi
    → Chain m e xs (first ys stop) (edge_after e xs).end × Chain m (edge_after e xs) ys stop hi
Chain-split m e [] ys stop hi h = (omega arith, h)
Chain-split m e (c ∷ xs) ys stop hi h =
    let (left, right) = Chain-split m (edge c) xs ys stop hi h.5 in
    (
      (
        h.0 ∙ ap (λ n. some (header c e.prev n)) (first-append xs ys stop),
        h.1,
        h.2,
        h.3,
        h.4,
        left,
      ),
      right,
    )

pub Chain-append :
    (m : ℕ → Option Block) (e : Edge) (xs ys : List Cell) (stop hi : ℕ)
    → Chain m e xs (first ys stop) (edge_after e xs).end
    → Chain m (edge_after e xs) ys stop hi
    → Chain m e (xs ++ ys) stop hi
Chain-append m e [] ys stop hi left right = right
Chain-append m e (c ∷ xs) ys stop hi left right = (
  left.0 ∙ ap (λ n. some (header c e.prev n)) (sym (first-append xs ys stop)),
  left.1,
  left.2,
  left.3,
  left.4,
  Chain-append m (edge c) xs ys stop hi left.5 right,
)

-- `m` with the first of the blocks `ys` linked back to `q`
abbrev pub relink : (ℕ → Option Block) → List Cell → ℕ → ℕ → Option Block
relink m [] q = m
relink m (c ∷ ys) q = update m c.addr (some (header c q (first ys null)))

-- Behind another edge, after that link is set.
pub Chain-relink :
    (m : ℕ → Option Block) (e e' : Edge) (ys : List Cell) (hi : ℕ)
    → Chain m e ys null hi
    → e'.end ≤ e.end
    → (e'.free && first_free ys) ≡ false
    → Chain (relink m ys e'.prev) e' ys null hi
Chain-relink m e e' [] hi h le quiet = omega arith
Chain-relink m e e' (c ∷ ys) hi h le quiet = (
  rw (==_refl c.addr),
  omega arith,
  quiet,
  h.3,
  h.4,
  Chain-frame m (relink m (c ∷ ys) e'.prev) (edge c) ys null hi (λ a lo up. ground arith) h.5,
)

-- The link is the only thing that `relink` writes.
pub relink-same :
    (m : ℕ → Option Block) (e : Edge) (ys : List Cell) (hi q a : ℕ)
    → Chain m e ys null hi
    → a < e.end
    → relink m ys q a ≡ m a
relink-same m e [] hi q a h lt = refl
relink-same m e (c ∷ ys) hi q a h lt = ground arith

-- The first block is not free if the one in front of it is.
pub Chain-quiet :
    (m : ℕ → Option Block) (e : Edge) (ys : List Cell) (stop hi : ℕ)
    → Chain m e ys stop hi
    → (e.free && first_free ys) ≡ false
Chain-quiet m e [] stop hi h = ground arith
Chain-quiet m e (c ∷ ys) stop hi h = h.2

-- Behind another edge with the same address.
pub Chain-edge :
    (m : ℕ → Option Block) (e e' : Edge) (ys : List Cell) (stop hi : ℕ)
    → e'.prev ≡ e.prev
    → e'.end ≤ e.end
    → (e'.free && first_free ys) ≡ false
    → Chain m e ys stop hi
    → Chain m e' ys stop hi
Chain-edge m e e' [] stop hi same le quiet h = omega arith
Chain-edge m e e' (c ∷ ys) stop hi same le quiet h =
    (rw same h.0, omega arith, quiet, h.3, h.4, h.5)

pub edge_after-snoc : (e : Edge) (xs : List Cell) (b : Cell) → edge_after e (xs ++ b ∷ []) ≡ edge b
edge_after-snoc e [] b = refl
edge_after-snoc e (x ∷ xs) b = edge_after-snoc (edge x) xs b

pub snoc-cases :
    (xs : List Cell) → (xs ≡ []) ⊎ ((ys : List Cell) × (y : Cell) × (xs ≡ ys ++ y ∷ []))
snoc-cases [] = inl refl
snoc-cases (x ∷ xs) = elim (snoc-cases xs) [
  | inl e ↦ inr ([], x, ap (λ t. x ∷ t) e)
  | inr (ys, y, e) ↦ inr (x ∷ ys, y, ap (λ t. x ∷ t) e)
]
