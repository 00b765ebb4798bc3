-- ===== src/Sched/Saved.antt =====
-- The stack pointer that `switch_context` writes to the task that it leaves is no part of the queue
-- of src/sched/sched.c.
use arc_monark.Base.{
  ℕ, ◌≡◌, refl, sym, ap, ◌∙◌, inl, inr, some, List, [], ◌∷◌, ◌==◌, ==_eq, ==_differ, Bool-cases,
}
use arc_monark.Sched.{Task, Sched, task, put}
use arc_monark.Sched.Circle.{task-put_ne, task-put_self, task-nonzero}
use arc_monark.Sched.Queue.{Waiting, Queue}

module _ {H : Type 0} (s : Sched H) (p rsp : ℕ) (t : Task) (at_p : task s p ≡ some t) where
  abbrev saved : Sched H
  saved = put p (record t { rsp = rsp }) s

  -- the same task, but for its stack pointer
  Kept : ℕ → Task → Type 0
  Kept x u = (v : Task) × (task saved x ≡ some v) × (v.next ≡ u.next) × (v.state ≡ u.state)

  keeps : (x : ℕ) (u : Task) → task s x ≡ some u → Kept x u
  unfolding Kept
  keeps x u e = elim (Bool-cases (x == p)) [
    | inl here ↦
        let same : x ≡ p = ==_eq x p here in
        let u_t : u ≡ t = cc in
        (
          record t { rsp = rsp },
          ap (task saved) same
              ∙ task-put_self s p (record t { rsp = rsp }) (task-nonzero s p t at_p),
          ap (λ (b : Task). b.next) (sym u_t),
          ap (λ (b : Task). b.state) (sym u_t),
        )
    | inr far ↦ (u, task-put_ne s p x (record t { rsp = rsp }) (==_differ x p far) ∙ e, refl, refl)
  ]

  saved-Waiting : (xs : List ℕ) (stop : ℕ) → Waiting s xs stop → Waiting saved xs stop
  unfolding Kept
  saved-Waiting [] stop w = tt
  saved-Waiting (x ∷ xs) stop ((u, e, next, ready), w) =
      let (v, e', next', ready') = keeps x u e in
      ((v, e', next' ∙ next, ready' ∙ ready), saved-Waiting xs stop w)

  pub saved-Queue : (c : ℕ) (xs : List ℕ) → Queue s c xs → Queue saved c xs
  unfolding Kept put
  saved-Queue c xs q =
      let (v, e, next, runs) = keeps c q.self q.at_current in
      record {
        current = q.current;
        self = v;
        at_current = e;
        after_current = next ∙ q.after_current;
        running = runs ∙ q.running;
        waiting = saved-Waiting xs c q.waiting;
        apart = q.apart;
        distinct = q.distinct;
        head_in = q.head_in;
        ended = elim q.ended [
          | inl e' ↦ inl e'
          | inr (z, at_z, out) ↦ let (z', at', n, st) = keeps s.zombie z at_z in inr (z', at', out)
        ];
      }
