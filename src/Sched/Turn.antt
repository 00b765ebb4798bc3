-- ===== src/Sched/Turn.antt =====
-- `schedule` of src/sched/sched.c on the queue: the turns of the tasks.
use arc_monark.Base.{
  ℕ, suc, ◌≡◌, refl, sym, ap, subst, ◌∙◌, ◌≢◌, ◌⊎◌, inl, inr, false, ◌||◌, none, some, List, [],
  ◌∷◌, ◌++◌, arith, ◌==◌, if◌then◌else◌, ==_ne,
}
use arc_monark.Sched.{
  put, task_ready, task_running, Task, Allocator, Sched, is_dead, task, find_next, reap, ◌>>=◌,
  schedule,
}
use arc_monark.Sched.Circle.{first, Apart, task-nonzero}
use arc_monark.Sched.Next.{
  Switched, reap_none, schedule_stays, schedule_switches, switched, switched-Switched,
}
use arc_monark.Sched.Queue.{
  Among, Queue, Waiting-frame, Waiting-snoc, first-snoc, Apart-snoc, Distinct-snoc, Among-snoc,
}

module _ {H : Type 0} where
  -- a task that is not dead ends the search at once
  pub find_next-first :
      (s : Sched H) (k prev x : ℕ) (t : Task)
      → task s x ≡ some t
      → is_dead t.state ≡ false
      → find_next (suc k) prev x s ≡ some x
  unfolding find_next
  find_next-first s k prev x t e live = rw (e, find_next) (rw live refl)

module _ (A : Allocator) where
  -- what `reap` leaves of the task that has ended: its stack and itself given back to the heap
  abbrev freed : Sched A.State → Task → Sched A.State
  freed s z =
      let h : A.State = if z.stack_base == 0 then s.heap else A.kfree z.stack_base s.heap in
      record s { zombie = 0; heap = A.kfree s.zombie h }

  reap-freed :
      (s : Sched A.State) (z : Task)
      → task s s.zombie ≡ some z
      → s.current_task ≢ s.zombie
      → reap A s ≡ some (freed s z)
  unfolding reap
  reap-freed s z e ne =
      let set : ((s.zombie == 0) || (s.zombie == s.current_task)) ≡ false =
        ground (arith, task-nonzero s s.zombie z e, ne) in
      rw set (rw (e, ◌>>=◌) refl)

  -- What has been given back to the heap of a task that has ended: its stack, unless that is NULL, and
  -- then the task itself; nothing where no task has ended.
  abbrev pub Returned : Sched A.State → A.State → Type 0
  Returned s h =
      ((s.zombie ≡ 0) × (h ≡ s.heap))
      ⊎ ((z : Task) × (task s s.zombie ≡ some z)
          × ((z.stack_base ≡ 0) → h ≡ A.kfree s.zombie s.heap)
          × ((z.stack_base ≢ 0) → h ≡ A.kfree s.zombie (A.kfree z.stack_base s.heap)))

  freed-Returned :
      (s : Sched A.State) (z : Task) → task s s.zombie ≡ some z → Returned s (freed s z).heap
  freed-Returned s z e = inr (
    z,
    e,
    (λ no_stack. rw (ap (λ b. b == 0) no_stack) refl),
    λ stack. rw (==_ne z.stack_base 0 stack) refl,
  )

  freed-Queue :
      (s : Sched A.State) (c : ℕ) (xs : List ℕ) (z : Task)
      → Queue s c xs
      → Apart s.zombie xs
      → Queue (freed s z) c xs
  unfolding task
  freed-Queue s c xs z q out = record {
    current = q.current;
    self = q.self;
    at_current = q.at_current;
    after_current = q.after_current;
    running = q.running;
    waiting = Waiting-frame s (freed s z) xs s.zombie s.zombie c (λ x n n'. refl) out out q.waiting;
    apart = q.apart;
    distinct = q.distinct;
    head_in = q.head_in;
    ended = inl refl;
  }

  -- `reap` leaves the queue as it is, no task to be reaped, and gives back what the one that was had.
  pub reap-Queue :
      (s : Sched A.State) (c : ℕ) (xs : List ℕ)
      → Queue s c xs
      → (s' : Sched A.State) × (reap A s ≡ some s')
        × Queue s' c xs
        × (s'.zombie ≡ 0)
        × ((x : ℕ) → task s' x ≡ task s x)
        × Returned s s'.heap
  unfolding task
  reap-Queue s c xs q = elim q.ended [
    | inl e ↦ (s, reap_none A s (ground (arith, e)), q, e, (λ x. refl), inl (e, refl))
    | inr (z, at_z, out) ↦ (
      freed s z,
      reap-freed s z at_z (λ e. out.0 (sym q.current ∙ e)),
      freed-Queue s c xs z q out.1,
      refl,
      (λ x. refl),
      freed-Returned s z at_z,
    )
  ]

  -- `schedule` reaps first, and goes on from there.
  pub schedule-reap :
      (rounds : ℕ) (s s' : Sched A.State)
      → reap A s ≡ some s'
      → reap A s' ≡ some s'
      → (s.current_task == 0) ≡ false
      → (s'.current_task == 0) ≡ false
      → schedule A rounds s ≡ schedule A rounds s'
  unfolding schedule
  schedule-reap rounds s s' e e' ne ne' = rw (ne, ne') (rw (e, ◌>>=◌) (rw (e', ◌>>=◌) refl))

  -- the same queue after a switch to its first task
  module _ (s s' : Sched A.State) (c y : ℕ) (ys : List ℕ) (q : Queue s c (y ∷ ys)) (n : Task)
      (at_y : task s y ≡ some n) (next : n.next ≡ first ys c) (w : Switched s s' c y q.self n)
      (clean : s'.zombie ≡ 0) (head : s'.head ≡ s.head) where
    Switched-Queue : Queue s' y (ys ++ c ∷ [])
    Switched-Queue = record {
      current = w.current;
      self = record n { state = task_running };
      at_current = w.runs;
      after_current = next ∙ first-snoc ys c y;
      running = refl;
      waiting =
          Waiting-snoc s' ys c y (record q.self { state = task_ready })
            (Waiting-frame s s' ys c y c w.others q.apart.1 q.distinct.0 q.waiting.1)
            (w.waits ∙ rw q.running refl) q.after_current refl;
      apart = Apart-snoc y ys c q.distinct.0 (λ e. q.apart.0 (sym e));
      distinct = Distinct-snoc ys c q.distinct.1 q.apart.1;
      head_in =
          subst (λ a. Among a (y ∷ (ys ++ c ∷ []))) (sym head)
            (Among-snoc s.head (y ∷ ys) c q.head_in);
      ended = inl clean;
    }

  -- `schedule`, on a queue where no task is to be reaped
  module _ (s : Sched A.State) (k : ℕ) (clean : s.zombie ≡ 0) where
    no_reap : reap A s ≡ some s
    no_reap = reap_none A s (ground (arith, clean))

    pub schedule-alone : Queue s s.current_task [] → schedule A (suc k) s ≡ some (none, s)
    schedule-alone q =
        schedule_stays A s (suc k) s.current_task q.self no_reap q.at_current
          (ap (λ x. find_next (suc k) s.current_task x s) q.after_current
            ∙ find_next-first s k s.current_task s.current_task q.self q.at_current
                (ap is_dead q.running))
          refl

    -- what a switch gives
    abbrev pub First : ℕ → ℕ → List ℕ → Type 0
    First c y ys =
        (n : Task) × (s' : Sched A.State) × (task s y ≡ some n)
        × (schedule A (suc k) s ≡ some (some (c, n.rsp), s'))
        × Queue s' y (ys ++ c ∷ [])
        × (s'.zombie ≡ 0)
        × (s'.heap ≡ s.heap)

    pub schedule-First :
        (y : ℕ) (ys : List ℕ) → Queue s s.current_task (y ∷ ys) → First s.current_task y ys
    unfolding put
    schedule-First y ys q =
        let (n, at_y, next, ready) = q.waiting.0 in
        let found : find_next (suc k) s.current_task q.self.next s ≡ some y =
          ap (λ x. find_next (suc k) s.current_task x s) q.after_current
          ∙ find_next-first s k s.current_task y n at_y (ap is_dead ready) in
        let w =
          switched-Switched A s (suc k) y q.self no_reap q.at_current found n at_y q.apart.0 in
        (
          n,
          switched A s (suc k) y q.self no_reap q.at_current found n,
          at_y,
          schedule_switches A s (suc k) y q.self no_reap q.at_current found n at_y q.apart.0,
          Switched-Queue s (switched A s (suc k) y q.self no_reap q.at_current found n)
              s.current_task y ys q n at_y next w (rw q.running clean) (rw q.running refl),
          rw q.running clean,
          rw q.running refl,
        )
