-- ===== src/Sched/Next.antt =====
-- Which task `schedule` of src/sched/sched.c picks.
use arc_monark.Base.{
  ℕ, zero, suc, ◌<◌, ◌≡◌, refl, sym, ap, ◌∙◌, ◌≢◌, ◌⊎◌, inl, inr, Bool, true, false, ◌||◌, none,
  some, List, [], ◌∷◌, arith, ◌==◌, if◌then◌else◌, ==_refl, ==_ne, Bool-cases, length,
}
use arc_monark.Sched.{
  task_ready, task_running, Task, Allocator, Sched, is_dead, is_running, ◌>>=◌, task, put,
  find_next, reap, schedule,
}
use arc_monark.Sched.Circle.{first, Links, task-put_ne, task-put_self, task-nonzero}

unfoldable pub dead_at : {H : Type 0} → Sched H → ℕ → Bool
dead_at s x = elim (task s x) [ none ↦ false | some t ↦ is_dead t.state ]

-- the first task of `xs` that is not dead, or `stop`
unfoldable pub first_live : {H : Type 0} → Sched H → List ℕ → ℕ → ℕ
first_live s [] stop = stop
first_live s (x ∷ xs) stop = if dead_at s x then first_live s xs stop else x

dead_at-task :
    {H : Type 0} (s : Sched H) (x : ℕ) (t : Task)
    → task s x ≡ some t
    → dead_at s x ≡ is_dead t.state
unfolding dead_at
dead_at-task s x t e = rw (e, dead_at) refl

find_next-first_live :
    {H : Type 0} (s : Sched H) (k prev : ℕ) (p : Task) (xs : List ℕ)
    → task s prev ≡ some p
    → Links s xs prev
    → length xs < k
    → find_next k prev (first xs prev) s ≡ some (first_live s xs prev)
unfolding find_next first_live
find_next-first_live s zero prev p xs e links lt = absurd (omega arith)
find_next-first_live s (suc k) prev p [] e links lt =
    rw (e, find_next)
      (elim (Bool-cases (is_dead p.state)) [
        | inl dead ↦ rw (dead, ==_refl prev) refl
        | inr live ↦ rw live refl
      ])
find_next-first_live s (suc k) prev p (x ∷ xs) e ((t, at_x, next), ne, rest) lt =
    elim (Bool-cases (is_dead t.state)) [
      | inl dead ↦
          rw (at_x, find_next)
            (rw (dead-at dead, dead, ==_ne x prev ne)
              (ap (λ q. find_next k prev q s) next
                ∙ find_next-first_live s k prev p xs e rest (omega arith)))
      | inr live ↦ rw (at_x, find_next) (rw (dead-at live, live) refl)
    ]
  where
    dead-at : {b : Bool} → is_dead t.state ≡ b → dead_at s x ≡ b
    dead-at h = dead_at-task s x t at_x ∙ h

first_live-cases :
    {H : Type 0} (s : Sched H) (xs : List ℕ) (stop : ℕ)
    → Links s xs stop
    → (first_live s xs stop ≡ stop)
      ⊎ ((n : Task) × (task s (first_live s xs stop) ≡ some n) × (first_live s xs stop ≢ stop))
unfolding first_live
first_live-cases s [] stop links = inl refl
first_live-cases s (x ∷ xs) stop ((t, at_x, next), ne, rest) = elim (Bool-cases (dead_at s x)) [
  | inl dead ↦ rw dead (first_live-cases s xs stop rest)
  | inr live ↦ rw live (inr (t, at_x, ne))
]

-- What a switch from `prev` to `next` makes of the tasks: `next` runs, `prev` waits if it was
-- running, and the others are as before.
pub record Switched {H : Type 0} (s s' : Sched H) (prev next : ℕ) (p n : Task) : Type 0 where
  pub current : s'.current_task ≡ next
  pub runs : task s' next ≡ some (record n { state = task_running })
  pub waits :
      task s' prev ≡ some (if is_running p.state then record p { state = task_ready } else p)
  pub others : (x : ℕ) → x ≢ prev → x ≢ next → task s' x ≡ task s x

-- the tasks with the state of `prev` set
abbrev pub paused : {H : Type 0} → Sched H → ℕ → Task → Sched H
paused s prev p = if is_running p.state then put prev (record p { state = task_ready }) s else s

paused_other :
    {H : Type 0} (s : Sched H) (prev x : ℕ) (p : Task)
    → x ≢ prev
    → task (paused s prev p) x ≡ task s x
paused_other s prev x p ne = elim (Bool-cases (is_running p.state)) [
  | inl e ↦ rw e (task-put_ne s prev x (record p { state = task_ready }) ne)
  | inr e ↦ rw e refl
]

paused_self :
    {H : Type 0} (s : Sched H) (prev : ℕ) (p : Task)
    → task s prev ≡ some p
    → task (paused s prev p) prev
      ≡ some (if is_running p.state then record p { state = task_ready } else p)
paused_self s prev p at_prev = elim (Bool-cases (is_running p.state)) [
  | inl e ↦
      rw e (task-put_self s prev (record p { state = task_ready }) (task-nonzero s prev p at_prev))
  | inr e ↦ rw e at_prev
]

-- The end of `schedule`, once the next task is found and no task is to be reaped.
module _ (A : Allocator) (s : Sched A.State) (rounds target : ℕ) (p : Task)
    (no_reap : reap A s ≡ some s) (at_prev : task s s.current_task ≡ some p)
    (found : find_next rounds s.current_task p.next s ≡ some target) where
  current_set : (s.current_task == 0) ≡ false
  current_set = ==_ne s.current_task 0 (task-nonzero s s.current_task p at_prev)

  pub schedule_stays : target ≡ s.current_task → schedule A rounds s ≡ some (none, s)
  unfolding schedule
  schedule_stays e =
      let same : (target == s.current_task) ≡ true = ground (arith, e) in
      rw current_set (rw (no_reap, ◌>>=◌) (rw (at_prev, ◌>>=◌) (rw (found, ◌>>=◌) (rw same refl))))

  abbrev pub switched : Task → Sched A.State
  switched n = record (put target (record n { state = task_running }) (paused s s.current_task p)) {
    current_task = target;
  }

  pub schedule_switches :
      (n : Task)
      → task s target ≡ some n
      → target ≢ s.current_task
      → schedule A rounds s ≡ some (some (s.current_task, n.rsp), switched n)
  unfolding schedule
  schedule_switches n at_n ne =
      let differ : (target == s.current_task) ≡ false = ==_ne target s.current_task ne in
      let there : task (paused s s.current_task p) target ≡ some n =
        paused_other s s.current_task target p ne ∙ at_n in
      rw current_set (
        rw (no_reap, ◌>>=◌)
          (rw (at_prev, ◌>>=◌) (rw (found, ◌>>=◌) (rw differ (rw (there, ◌>>=◌) refl)))))

  pub switched-Switched :
      (n : Task)
      → task s target ≡ some n
      → target ≢ s.current_task
      → Switched s (switched n) s.current_task target p n
  unfolding task
  switched-Switched n at_n ne = record {
    current = refl;
    runs =
        task-put_self (paused s s.current_task p) target (record n { state = task_running })
          (task-nonzero s target n at_n);
    waits =
        task-put_ne (paused s s.current_task p) target s.current_task
          (record n { state = task_running }) (λ e. ne (sym e))
        ∙ paused_self s s.current_task p at_prev;
    others = λ x not_prev not_next.
        task-put_ne (paused s s.current_task p) target x (record n { state = task_running })
          not_next
        ∙ paused_other s s.current_task x p not_prev;
  }

module _ (A : Allocator) (s : Sched A.State) where
  pub reap_none : (s.zombie == 0) ≡ true → reap A s ≡ some s
  unfolding reap
  reap_none e = rw e refl

  pub reap_current : s.zombie ≡ s.current_task → reap A s ≡ some s
  unfolding reap
  reap_current e =
      let same : ((s.zombie == 0) || (s.zombie == s.current_task)) ≡ true = ground (arith, e) in
      rw same refl

module _ (A : Allocator) (s : Sched A.State) (rounds : ℕ) (p : Task) (xs : List ℕ)
    (no_zombie : (s.zombie == 0) ≡ true) (at_prev : task s s.current_task ≡ some p)
    (circle : p.next ≡ first xs s.current_task) (links : Links s xs s.current_task)
    (enough : length xs < rounds) where
  abbrev pub target : ℕ
  target = first_live s xs s.current_task

  found : find_next rounds s.current_task p.next s ≡ some target
  found =
      ap (λ q. find_next rounds s.current_task q s) circle
      ∙ find_next-first_live s rounds s.current_task p xs at_prev links enough

  -- `schedule`, where the current task is in a circle with `xs` and no task waits to be reaped,
  -- goes round the circle to the first task that is not dead, and switches to it: that one runs,
  -- the current one is ready if it ran, all others are as they were. Where it comes back to the
  -- current task, it changes nothing and does not switch.
  pub schedule-first_live :
      ((target ≡ s.current_task) × (schedule A rounds s ≡ some (none, s)))
      ⊎ ((n : Task) × (s' : Sched A.State) × (task s target ≡ some n)
          × (schedule A rounds s ≡ some (some (s.current_task, n.rsp), s'))
          × Switched s s' s.current_task target p n)
  schedule-first_live =
      let no_reap : reap A s ≡ some s = reap_none A s no_zombie in
      elim (first_live-cases s xs s.current_task links) [
        | inl e ↦ inl (e, schedule_stays A s rounds target p no_reap at_prev found e)
        | inr (n, at_n, ne) ↦ inr (
          n,
          switched A s rounds target p no_reap at_prev found n,
          at_n,
          schedule_switches A s rounds target p no_reap at_prev found n at_n ne,
          switched-Switched A s rounds target p no_reap at_prev found n at_n ne,
        )
      ]
