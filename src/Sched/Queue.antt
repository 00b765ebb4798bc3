-- ===== src/Sched/Queue.antt =====
-- The circle of tasks in src/sched/sched.c as a queue: the task that runs, and those that wait, in
-- the order of their turns.
use arc_monark.Base.{ℕ, ◌≡◌, refl, sym, ◌∙◌, ◌≢◌, ◌⊎◌, inl, inr, some, List, [], ◌∷◌, ◌++◌}
use arc_monark.Sched.{task_ready, task_running, Task, Sched, task}
use arc_monark.Sched.Circle.{first, Apart}

-- Each of the tasks `xs` is ready, and its `next` is the following one; the last one's is `stop`.
abbrev pub Waiting : {H : Type 0} → Sched H → List ℕ → ℕ → Type 0
Waiting s [] stop = Unit {0}
Waiting s (x ∷ xs) stop =
    ((t : Task) × (task s x ≡ some t) × (t.next ≡ first xs stop) × (t.state ≡ task_ready))
    × Waiting s xs stop

-- No address stands twice.
abbrev pub Distinct : List ℕ → Type 0
Distinct [] = Unit {0}
Distinct (x ∷ xs) = Apart x xs × Distinct xs

abbrev pub Among : ℕ → List ℕ → Type 0
Among a [] = ⊥
Among a (x ∷ xs) = (x ≡ a) ⊎ Among a xs

-- The current task `c` runs, and behind it the tasks `xs` are ready, in a circle that the head is
-- in. A task that has ended and is not reaped yet is none of them.
pub record Queue {H : Type 0} (s : Sched H) (c : ℕ) (xs : List ℕ) : Type 0 where
  pub current : s.current_task ≡ c
  pub self : Task
  pub at_current : task s c ≡ some self
  pub after_current : self.next ≡ first xs c
  pub running : self.state ≡ task_running
  pub waiting : Waiting s xs c
  pub apart : Apart c xs
  pub distinct : Distinct xs
  pub head_in : Among s.head (c ∷ xs)
  pub ended : (s.zombie ≡ 0) ⊎ ((z : Task) × (task s s.zombie ≡ some z) × Apart s.zombie (c ∷ xs))

pub first-snoc : (xs : List ℕ) (c stop : ℕ) → first xs c ≡ first (xs ++ c ∷ []) stop
first-snoc [] c stop = refl
first-snoc (x ∷ xs) c stop = refl

module _ {H : Type 0} where
  -- the same tasks in another state of the scheduler
  pub Waiting-frame :
      (s s' : Sched H) (xs : List ℕ) (a b : ℕ) (stop : ℕ)
      → ((x : ℕ) → x ≢ a → x ≢ b → task s' x ≡ task s x)
      → Apart a xs
      → Apart b xs
      → Waiting s xs stop
      → Waiting s' xs stop
  Waiting-frame s s' [] a b stop same out out' p = tt
  Waiting-frame s s' (x ∷ xs) a b stop same (ne, out) (ne', out') ((t, e, next, ready), p) =
      ((t, same x ne ne' ∙ e, next, ready), Waiting-frame s s' xs a b stop same out out' p)

  pub Waiting-snoc :
      (s : Sched H) (xs : List ℕ) (c stop : ℕ) (t : Task)
      → Waiting s xs c
      → task s c ≡ some t
      → t.next ≡ stop
      → t.state ≡ task_ready
      → Waiting s (xs ++ c ∷ []) stop
  Waiting-snoc s [] c stop t p e next ready = ((t, e, next, ready), tt)
  Waiting-snoc s (x ∷ xs) c stop t ((u, e', next', ready'), p) e next ready =
      ((u, e', next' ∙ first-snoc xs c stop, ready'), Waiting-snoc s xs c stop t p e next ready)

pub Apart-snoc : (a : ℕ) (xs : List ℕ) (c : ℕ) → Apart a xs → c ≢ a → Apart a (xs ++ c ∷ [])
Apart-snoc a [] c out ne = (ne, tt)
Apart-snoc a (x ∷ xs) c (far, out) ne = (far, Apart-snoc a xs c out ne)

pub Distinct-snoc : (xs : List ℕ) (c : ℕ) → Distinct xs → Apart c xs → Distinct (xs ++ c ∷ [])
Distinct-snoc [] c d out = (tt, tt)
Distinct-snoc (x ∷ xs) c (far, d) (ne, out) =
    (Apart-snoc x xs c far (λ e. ne (sym e)), Distinct-snoc xs c d out)

pub Among-snoc : (a : ℕ) (xs : List ℕ) (c : ℕ) → Among a (c ∷ xs) → Among a (xs ++ c ∷ [])
Among-snoc a [] c h = h
Among-snoc a (x ∷ xs) c (inl e) = inr (Among-snoc a xs c (inl e))
Among-snoc a (x ∷ xs) c (inr (inl e)) = inl e
Among-snoc a (x ∷ xs) c (inr (inr h)) = inr (Among-snoc a xs c (inr h))

pub Among-Apart : (a b : ℕ) (xs : List ℕ) → Among a xs → Apart b xs → a ≢ b
Among-Apart a b [] h out = elim h [ ]
Among-Apart a b (x ∷ xs) (inl e) (ne, out) = λ e'. ne (e ∙ e')
Among-Apart a b (x ∷ xs) (inr h) (ne, out) = Among-Apart a b xs h out
