-- ===== src/Sched/Add.antt =====
-- `list_add` of src/sched/sched.c keeps the queue.
use arc_monark.Base.{
  ℕ, ◌≡◌, refl, sym, ap, subst, ◌∙◌, ◌≢◌, ◌⊎◌, inl, inr, some, List, [], ◌∷◌, ◌==◌, ==_eq,
  ==_differ, Bool-cases,
}
use arc_monark.Sched.{task_ready, Task, Sched, task, put, list_add}
use arc_monark.Sched.Circle.{Apart, added, list_add-runs}
use arc_monark.Sched.Queue.{Waiting, Among, Queue, Waiting-frame, Among-Apart}
use arc_monark.Sched.Insert.{
  insert_after, joined, first-insert_after, Apart-insert_after, Distinct-insert_after, now_head,
  now_inserted, now_other, Among-insert_after, added-Waiting,
}

module _ {H : Type 0} where
  Among-task :
      (s : Sched H) (a : ℕ) (xs : List ℕ) (stop : ℕ)
      → Waiting s xs stop
      → Among a xs
      → (u : Task) × (task s a ≡ some u)
  Among-task s a [] stop w m = elim m [ ]
  Among-task s a (x ∷ xs) stop ((u, e, next, ready), w) (inl here) =
      (u, subst (λ b. task s b ≡ some u) here e)
  Among-task s a (x ∷ xs) stop (here, w) (inr m) = Among-task s a xs stop w m

  head_task :
      (s : Sched H) (c : ℕ) (xs : List ℕ) → Queue s c xs → (u : Task) × (task s s.head ≡ some u)
  head_task s c xs q = elim q.head_in [
    | inl here ↦ (q.self, subst (λ b. task s b ≡ some q.self) here q.at_current)
    | inr m ↦ Among-task s s.head xs c q.waiting m
  ]

  module _ (s : Sched H) (c t : ℕ) (xs : List ℕ) (boot new : Task) (q : Queue s c xs)
      (at_head : task s s.head ≡ some boot) (at_new : task s t ≡ some new)
      (ready : new.state ≡ task_ready) (out : Apart t (c ∷ xs)) (far : t ≢ s.head)
      (kept : t ≢ s.zombie) where
    abbrev after : Sched H
    after = added s t boot new

    still : (x : ℕ) → x ≢ s.head → x ≢ t → task after x ≡ task s x
    still = now_other s t boot new at_head at_new ready far

    still_ended :
        (ys : List ℕ)
        → (Apart s.zombie (c ∷ xs) → Apart s.zombie (c ∷ ys))
        → (after.zombie ≡ 0)
          ⊎ ((z : Task) × (task after after.zombie ≡ some z) × Apart after.zombie (c ∷ ys))
    unfolding put
    still_ended ys more = elim q.ended [
      | inl e ↦ inl e
      | inr (z, at_z, clear) ↦
          let not_head : s.zombie ≢ s.head =
            λ e. Among-Apart s.head s.zombie (c ∷ xs) q.head_in clear (sym e) in
          inr (z, still s.zombie not_head (λ e. kept (sym e)) ∙ at_z, more clear)
    ]

    behind_current : c ≡ s.head → Queue after c (t ∷ xs)
    unfolding put
    behind_current here =
        let boot_self : q.self ≡ boot = cc in
        record {
          current = q.current;
          self = record boot { next = t };
          at_current =
              subst (λ a. task after a ≡ some (record boot { next = t })) (sym here)
                (now_head s t boot new at_head at_new ready far);
          after_current = refl;
          running = ap (λ (b : Task). b.state) (sym boot_self) ∙ q.running;
          waiting = (
            (
              record new { next = boot.next },
              now_inserted s t boot new at_head at_new ready far,
              ap (λ (b : Task). b.next) (sym boot_self) ∙ q.after_current,
              ready,
            ),
            Waiting-frame s after xs s.head t c still (subst (λ a. Apart a xs) here q.apart) out.1
                q.waiting,
          );
          apart = ((λ e. out.0 (sym e)), q.apart);
          distinct = (out.1, q.distinct);
          head_in = inl here;
          ended = still_ended (t ∷ xs) (λ clear. (clear.0, (kept, clear.1)));
        }

    behind_other : c ≢ s.head → Queue after c (insert_after s.head t xs)
    unfolding put
    behind_other else_where = record {
      current = q.current;
      self = q.self;
      at_current = still c else_where out.0 ∙ q.at_current;
      after_current = q.after_current ∙ sym (first-insert_after s.head t xs c);
      running = q.running;
      waiting = added-Waiting s t boot new at_head at_new ready far xs c q.waiting out.1 q.distinct;
      apart = Apart-insert_after c s.head t xs q.apart (λ e. out.0 (sym e));
      distinct = Distinct-insert_after s.head t xs q.distinct out.1;
      head_in = elim q.head_in [
        | inl here ↦ absurd (else_where here)
        | inr m ↦ inr (Among-insert_after s.head t s.head xs m)
      ];
      ended =
          still_ended (insert_after s.head t xs)
            (λ clear. (clear.0, Apart-insert_after s.zombie s.head t xs clear.1 kept));
    }

    added-Queue : Queue after c (joined s.head t c xs)
    unfolding joined
    added-Queue = elim (Bool-cases (c == s.head)) [
      | inl e ↦ rw e (behind_current (==_eq c s.head e))
      | inr e ↦ rw e (behind_other (==_differ c s.head e))
    ]

  -- `list_add` puts a ready task that is not in the circle behind the head, wherever the current
  -- task stands.
  pub list_add-Queue :
      (s : Sched H) (c t : ℕ) (xs : List ℕ) (new : Task)
      → Queue s c xs
      → task s t ≡ some new
      → new.state ≡ task_ready
      → Apart t (c ∷ xs)
      → t ≢ s.zombie
      → (s' : Sched H) × (list_add t s ≡ some s')
        × Queue s' c (joined s.head t c xs)
        × (s'.heap ≡ s.heap)
        × (s'.words ≡ s.words)
        × (s'.next_tid ≡ s.next_tid)
        × ((u : Task) × (task s' t ≡ some u) × (u.rsp ≡ new.rsp) × (u.id ≡ new.id))
  unfolding put
  list_add-Queue s c t xs new q at_new ready out kept =
      let (boot, at_head) = head_task s c xs q in
      let far : t ≢ s.head = λ e. Among-Apart s.head t (c ∷ xs) q.head_in out (sym e) in
      (
        added s t boot new,
        list_add-runs s t boot new at_head at_new far,
        added-Queue s c t xs boot new q at_head at_new ready out far kept,
        refl,
        refl,
        refl,
        (
          record new { next = boot.next },
          now_inserted s t boot new at_head at_new ready far,
          refl,
          refl,
        ),
      )
