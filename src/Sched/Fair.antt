-- ===== src/Sched/Fair.antt =====
-- `schedule` of src/sched/sched.c as a step of the queue, and what any number of its calls make of it.
use arc_monark.Base.{
  ℕ, zero, suc, ◌≡◌, refl, sym, ap, subst, ◌∙◌, false, Option, none, some, List, [], ◌∷◌, ◌++◌,
  append_assoc, arith, ◌==◌, length,
}
use arc_monark.Sched.{Task, Allocator, Sched, task, schedule}
use arc_monark.Sched.Circle.{task-nonzero}
use arc_monark.Sched.Queue.{Queue}
use arc_monark.Sched.Next.{reap_none}
use arc_monark.Sched.Turn.{
  First, Returned, reap-Queue, schedule-reap, schedule-alone, schedule-First,
}

-- the queue after a turn: the first task that waits, and those that wait then
unfoldable pub turn : ℕ × List ℕ → ℕ × List ℕ
turn (c, []) = (c, [])
turn (c, y ∷ ys) = (y, ys ++ c ∷ [])

-- the queue after `n` turns
unfoldable pub turns : ℕ → ℕ × List ℕ → ℕ × List ℕ
turns zero q = q
turns (suc n) q = turns n (turn q)

turns_lem :
    (front : List ℕ) (c x : ℕ) (back : List ℕ)
    → turns (suc (length front)) (c, front ++ x ∷ back) ≡ (x, back ++ c ∷ front)
unfolding turn turns
turns_lem [] c x back = refl
turns_lem (y ∷ front) c x back =
    ap (λ t. turns (suc (length front)) (y, t)) (append_assoc front (x ∷ back) (c ∷ []))
    ∙ (turns_lem front y x (back ++ c ∷ [])
        ∙ ap (λ t. (x, t)) (append_assoc back (c ∷ []) (y ∷ front)))

-- Which switch a turn ends with: none where no task waits, else one from the current task to the
-- saved stack pointer of the first that does.
abbrev pub Switch : {H : Type 0} → Sched H → ℕ → List ℕ → Option (ℕ × ℕ) → Type 0
Switch s c [] switch = switch ≡ none
Switch s c (y ∷ ys) switch = (n : Task) × (task s y ≡ some n) × (switch ≡ some (c, n.rsp))

module _ (A : Allocator) where
  -- what `schedule` makes of the queue
  pub record Turned (s : Sched A.State) (k c : ℕ) (xs : List ℕ) : Type 0 where
    pub switch : Option (ℕ × ℕ)
    pub after : Sched A.State
    pub runs : schedule A (suc k) s ≡ some (switch, after)
    pub queue : Queue after (turn (c, xs)).0 (turn (c, xs)).1
    pub switches : Switch s c xs switch
    pub clean : after.zombie ≡ 0
    pub heap : Returned A s after.heap

  current_set :
      (s : Sched A.State) (c : ℕ) (xs : List ℕ) → Queue s c xs → (s.current_task == 0) ≡ false
  current_set s c xs q = ground (arith, q.current, task-nonzero s c q.self q.at_current)

  current_Queue :
      (s : Sched A.State) (c : ℕ) (xs : List ℕ) → Queue s c xs → Queue s s.current_task xs
  current_Queue s c xs q = subst (λ a. Queue s a xs) (sym q.current) q

  -- Where the current task runs and the others of the circle are ready, `schedule` calls `kfree` on
  -- the stack, unless that is NULL, and on the memory of a task that has ended, and else leaves the
  -- heap as it is; and switches to the next task of the
  -- circle, which runs then, while the current one is ready, behind all others. Where no other
  -- task waits it does not switch.
  pub schedule-Turned : (s : Sched A.State) (k c : ℕ) (xs : List ℕ) → Queue s c xs → Turned s k c xs
  unfolding turn
  schedule-Turned s k c [] q =
      let (s1, reaps, q1, clean, same, given) = reap-Queue A s c [] q in
      record {
        switch = none;
        after = s1;
        runs =
            schedule-reap A (suc k) s s1 reaps (reap_none A s1 (ground (arith, clean)))
              (current_set s c [] q) (current_set s1 c [] q1)
            ∙ schedule-alone A s1 k clean (current_Queue s1 c [] q1);
        queue = q1;
        switches = refl;
        clean = clean;
        heap = given;
      }
  schedule-Turned s k c (y ∷ ys) q =
      let (s1, reaps, q1, clean, same, given) = reap-Queue A s c (y ∷ ys) q in
      let f : First A s1 k clean c y ys =
        subst (λ a. First A s1 k clean a y ys) q1.current
          (schedule-First A s1 k clean y ys (current_Queue s1 c (y ∷ ys) q1)) in
      let (n, s', at_y, runs, q', clean', heap) = f in
      record {
        switch = some (c, n.rsp);
        after = s';
        runs =
            schedule-reap A (suc k) s s1 reaps (reap_none A s1 (ground (arith, clean)))
              (current_set s c (y ∷ ys) q) (current_set s1 c (y ∷ ys) q1)
            ∙ runs;
        queue = q';
        switches = (n, sym (same y) ∙ at_y, refl);
        clean = clean';
        heap = subst (Returned A s) (sym heap) given;
      }

  -- `schedule`, `n` times
  pub schedules : ℕ → ℕ → Sched A.State → Option (Sched A.State)
  schedules zero k s = some s
  schedules (suc n) k s = elim (schedule A k s) [
    | none ↦ none
    | some (switch, s') ↦ schedules n k s'
  ]

  schedules-turns :
      (n k c : ℕ) (xs : List ℕ) (s : Sched A.State)
      → Queue s c xs
      → (s' : Sched A.State) × (schedules n (suc k) s ≡ some s')
        × Queue s' (turns n (c, xs)).0 (turns n (c, xs)).1
  unfolding schedules turns
  schedules-turns zero k c xs s q = (s, refl, q)
  schedules-turns (suc n) k c xs s q =
      let t = schedule-Turned s k c xs q in
      let (s', runs, q') = schedules-turns n k (turn (c, xs)).0 (turn (c, xs)).1 t.after t.queue in
      (s', rw (t.runs, schedules) runs, q')

  -- Every task that waits behind `length front` others runs after as many calls of `schedule` and
  -- one more, and the circle then goes on from it in the same order, as long as no task is made
  -- or ends.
  pub schedules-Queue :
      (k c x : ℕ) (front back : List ℕ) (s : Sched A.State)
      → Queue s c (front ++ x ∷ back)
      → (s' : Sched A.State) × (schedules (suc (length front)) (suc k) s ≡ some s')
        × Queue s' x (back ++ c ∷ front)
        × (s'.current_task ≡ x)
  schedules-Queue k c x front back s q =
      let (s', runs, q') = schedules-turns (suc (length front)) k c (front ++ x ∷ back) s q in
      let at : turns (suc (length front)) (c, front ++ x ∷ back) ≡ (x, back ++ c ∷ front) =
        turns_lem front c x back in
      let q2 : Queue s' x (back ++ c ∷ front) = subst (λ t. Queue s' t.0 t.1) at q' in
      (s', runs, q2, q2.current)
