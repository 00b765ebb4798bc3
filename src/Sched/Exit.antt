-- ===== src/Sched/Exit.antt =====
-- `task_exit` of src/sched/sched.c: the current task leaves the circle.
use arc_monark.Base.{
  ℕ, zero, suc, ◌≤◌, ◌<◌, ◌≡◌, refl, sym, ap, subst, ◌∙◌, ◌≢◌, inl, inr, false, Option, none, some,
  List, [], ◌∷◌, arith, ◌==◌, ==_refl, Bool-cases, length,
}
use arc_monark.Sched.{
  task_running, task_dead, Task, Allocator, Sched, is_dead, ◌>>=◌, task, put, find_before,
  find_next, list_remove, task_exit,
}
use arc_monark.Sched.Circle.{Apart, task-put_ne, task-put_self, task-nonzero}
use arc_monark.Sched.Next.{Switched, reap_current, schedule_switches, switched-Switched}
use arc_monark.Sched.Queue.{Waiting, Distinct, Among, Queue, Waiting-frame, Among-Apart}
use arc_monark.Sched.Turn.{find_next-first}

module _ {H : Type 0} where
  -- the last task of a circle, and the tasks once it is linked to another one
  record Last (s : Sched H) (k c x : ℕ) (xs : List ℕ) : Type 0 where
    at : ℕ
    b : Task
    runs : find_before k c x s ≡ some at
    at_last : task s at ≡ some b
    among : Among at (x ∷ xs)
    relinked : (q : ℕ) → Waiting (put at (record b { next = q }) s) (x ∷ xs) q

  -- The walk to the task in front of `c` ends there.
  find_before-Last :
      (s : Sched H) (k c x : ℕ) (xs : List ℕ)
      → Waiting s (x ∷ xs) c
      → Apart c (x ∷ xs)
      → Distinct (x ∷ xs)
      → length xs < k
      → Last s k c x xs
  unfolding find_before
  find_before-Last s zero c x xs w out d lt = absurd (omega arith)
  find_before-Last s (suc k) c x [] ((t, e, next, ready), w) out d lt = record {
    at = x;
    b = t;
    runs = rw (e, find_before) (rw (next, ==_refl c) refl);
    at_last = e;
    among = inl refl;
    relinked = λ q. (
      (
        record t { next = q },
        task-put_self s x (record t { next = q }) (task-nonzero s x t e),
        refl,
        ready,
      ),
      tt,
    );
  }
  find_before-Last s (suc k) c x (z ∷ zs) ((t, e, next, ready), w) (ne, out) (far, d) lt =
      let l : Last s k c z zs = find_before-Last s k c z zs w out d (omega arith) in
      record {
        at = l.at;
        b = l.b;
        runs =
            let differ : (t.next == c) ≡ false = ground (arith, next, out.0) in
            rw (e, find_before) (rw differ (ap (λ p. find_before k c p s) next ∙ l.runs));
        at_last = l.at_last;
        among = inr l.among;
        relinked = λ q. (
          (
            t,
            task-put_ne s l.at x (record l.b { next = q })
                  (λ e'. Among-Apart l.at x (z ∷ zs) l.among far (sym e'))
                ∙ e,
            next,
            ready,
          ),
          l.relinked q,
        );
      }

  list_remove_lem :
      (s : Sched H) (k c x : ℕ) (xs : List ℕ) (t : Task) (l : Last s k c x xs)
      → task s c ≡ some t
      → t.next ≡ x
      → list_remove k c s ≡ some (put l.at (record l.b { next = x }) s)
  unfolding list_remove
  list_remove_lem s k c x xs t l e next =
      rw (e, ◌>>=◌) (rw (next) (rw (l.runs, ◌>>=◌) (rw (l.at_last, ◌>>=◌) refl)))

module _ (A : Allocator) (s : Sched A.State) (k y : ℕ) (ys : List ℕ)
    (q : Queue s s.current_task (y ∷ ys)) (enough : length ys ≤ k) where
  abbrev c : ℕ
  c = s.current_task

  -- the current task, dead
  abbrev dead : Task
  dead = record q.self { state = task_dead }

  abbrev marked : Sched A.State
  marked = put c dead s

  last : Last marked (suc k) c y ys
  last =
      find_before-Last marked (suc k) c y ys
        (Waiting-frame s marked (y ∷ ys) c c c (λ x ne ne'. task-put_ne s c x dead ne) q.apart
          q.apart q.waiting)
        q.apart q.distinct (omega arith)

  abbrev removed : Sched A.State
  removed = record (put last.at (record last.b { next = y }) marked) { zombie = c }

  removed-Waiting : Waiting removed (y ∷ ys) y
  unfolding task
  removed-Waiting =
      Waiting-frame (put last.at (record last.b { next = y }) marked) removed (y ∷ ys) c c y
        (λ x ne ne'. refl) q.apart q.apart (last.relinked y)

  c_far : c ≢ last.at
  c_far = λ e. Among-Apart last.at c (y ∷ ys) last.among q.apart (sym e)

  at_dead : task removed c ≡ some dead
  unfolding task
  at_dead =
      task-put_ne marked last.at c (record last.b { next = y }) c_far
      ∙ task-put_self s c dead (task-nonzero s c q.self q.at_current)

  found : find_next (suc k) c dead.next removed ≡ some y
  found =
      let (n, at_y, next, ready) = removed-Waiting.0 in
      ap (λ x. find_next (suc k) c x removed) q.after_current
      ∙ find_next-first removed k c y n at_y (ap is_dead ready)

  -- The removal changes no saved stack pointer.
  abbrev rsp_of : Option Task → ℕ
  rsp_of o = elim o [ none ↦ 0 | some t ↦ t.rsp ]

  last_rsp : rsp_of (task removed last.at) ≡ rsp_of (task marked last.at)
  unfolding task
  last_rsp =
      ap rsp_of (
        task-put_self marked last.at (record last.b { next = y })
          (task-nonzero marked last.at last.b last.at_last))
      ∙ ap rsp_of (sym last.at_last)

  removed_rsp : rsp_of (task removed y) ≡ rsp_of (task s y)
  unfolding task
  removed_rsp =
      elim (Bool-cases (y == last.at)) [
        | inl e ↦
            let same : y ≡ last.at = ground arith in
            ap (λ a. rsp_of (task removed a)) same
            ∙ (last_rsp ∙ ap (λ a. rsp_of (task marked a)) (sym same))
        | inr e ↦
            ap rsp_of (task-put_ne marked last.at y (record last.b { next = y }) (ground arith))
      ]
      ∙ ap rsp_of (task-put_ne s c y dead q.apart.0)

  abbrev final : Task → Sched A.State
  final n = record (put y (record n { state = task_running }) removed) { current_task = y }

  exit_runs :
      (n : Task) → task removed y ≡ some n → task_exit A (suc k) s ≡ some (some (c, n.rsp), final n)
  unfolding task_exit put
  exit_runs n at_y =
      rw (q.at_current, ◌>>=◌)
        (rw
          (
            list_remove_lem marked (suc k) c y ys dead last
                (task-put_self s c dead (task-nonzero s c q.self q.at_current)) q.after_current,
            ◌>>=◌,
          )
          (schedule_switches A removed (suc k) y dead (reap_current A removed refl) at_dead found n
            at_y q.apart.0))

  final-Switched : (n : Task) → task removed y ≡ some n → Switched removed (final n) c y dead n
  unfolding put
  final-Switched n at_y =
      switched-Switched A removed (suc k) y dead (reap_current A removed refl) at_dead found n at_y
        q.apart.0

  -- Where the current task runs and others of the circle are ready, and the current one is not the
  -- head, `task_exit` always gets to the next one: the current task is dead and out of the circle,
  -- and waits to be reaped, and the next one runs, before the others in the same order. A task
  -- that waited to be reaped is forgotten without being given back to the heap.
  pub task_exit-Queue :
      c ≢ s.head
      → (n : Task) × (s' : Sched A.State) × (task s y ≡ some n)
        × (task_exit A (suc k) s ≡ some (some (c, n.rsp), s'))
        × Queue s' y ys
        × ((d : Task) × (task s' c ≡ some d) × (d.state ≡ task_dead))
        × (s'.zombie ≡ c)
        × (s'.heap ≡ s.heap)
  unfolding put
  task_exit-Queue far =
      let (n, at_y, next, ready) = removed-Waiting.0 in
      let w : Switched removed (final n) c y dead n = final-Switched n at_y in
      let same : n.rsp ≡ q.waiting.0.0.rsp =
        ap rsp_of (sym at_y) ∙ (removed_rsp ∙ ap rsp_of q.waiting.0.1) in
      (
        q.waiting.0.0,
        final n,
        q.waiting.0.1,
        subst (λ r. task_exit A (suc k) s ≡ some (some (c, r), final n)) same (exit_runs n at_y),
        record {
          current = refl;
          self = record n { state = task_running };
          at_current = w.runs;
          after_current = next;
          running = refl;
          waiting =
              Waiting-frame removed (final n) ys c y y w.others q.apart.1 q.distinct.0
                removed-Waiting.1;
          apart = q.distinct.0;
          distinct = q.distinct.1;
          head_in = elim q.head_in [ inl e ↦ absurd (far e) | inr h ↦ h ];
          ended = inr (dead, w.waits, q.apart);
        },
        (dead, w.waits, refl),
        refl,
        refl,
      )
