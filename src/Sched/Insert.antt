-- ===== src/Sched/Insert.antt =====
-- `list_add` of src/sched/sched.c on the queue: where a new task stands.
use arc_monark.Base.{
  ℕ, ◌≡◌, refl, sym, ap, subst, ◌∙◌, ◌≢◌, inl, inr, some, List, [], ◌∷◌, arith, ◌==◌, if◌then◌else◌,
  Bool-cases,
}
use arc_monark.Sched.{task_ready, Task, Sched, task, put}
use arc_monark.Sched.Circle.{first, Apart, added, task-put_ne, task-put_self, task-nonzero}
use arc_monark.Sched.Queue.{Waiting, Distinct, Among, Waiting-frame}

-- `t` behind `h`
unfoldable pub insert_after : ℕ → ℕ → List ℕ → List ℕ
insert_after h t [] = []
insert_after h t (x ∷ xs) = if x == h then x ∷ t ∷ xs else x ∷ insert_after h t xs

-- the tasks that wait, with `t` behind the head, which may be the current task
unfoldable pub joined : ℕ → ℕ → ℕ → List ℕ → List ℕ
joined h t c xs = if c == h then t ∷ xs else insert_after h t xs

pub first-insert_after :
    (h t : ℕ) (xs : List ℕ) (stop : ℕ) → first (insert_after h t xs) stop ≡ first xs stop
unfolding insert_after
first-insert_after h t [] stop = refl
first-insert_after h t (x ∷ xs) stop = elim (Bool-cases (x == h)) [
  | inl e ↦ rw e refl
  | inr e ↦ rw e refl
]

pub Apart-insert_after :
    (a h t : ℕ) (xs : List ℕ) → Apart a xs → t ≢ a → Apart a (insert_after h t xs)
unfolding insert_after
Apart-insert_after a h t [] out ne = tt
Apart-insert_after a h t (x ∷ xs) (far, out) ne = elim (Bool-cases (x == h)) [
  | inl e ↦ rw e (far, (ne, out))
  | inr e ↦ rw e (far, Apart-insert_after a h t xs out ne)
]

pub Distinct-insert_after :
    (h t : ℕ) (xs : List ℕ) → Distinct xs → Apart t xs → Distinct (insert_after h t xs)
unfolding insert_after
Distinct-insert_after h t [] d out = tt
Distinct-insert_after h t (x ∷ xs) (far, d) (ne, out) = elim (Bool-cases (x == h)) [
  | inl e ↦ rw e (((λ e'. ne (sym e')), far), (out, d))
  | inr e ↦
      rw e (Apart-insert_after x h t xs far (λ e'. ne (sym e')), Distinct-insert_after h t xs d out)
]

pub Among-insert_after : (h t a : ℕ) (xs : List ℕ) → Among a xs → Among a (insert_after h t xs)
unfolding insert_after
Among-insert_after h t a [] m = m
Among-insert_after h t a (x ∷ xs) m = elim (Bool-cases (x == h)) [
  | inl e ↦ rw e (elim m [ inl e' ↦ inl e' | inr m' ↦ inr (inr m') ])
  | inr e ↦ rw e (elim m [ inl e' ↦ inl e' | inr m' ↦ inr (Among-insert_after h t a xs m') ])
]

module _ {H : Type 0} (s : Sched H) (t : ℕ) (boot new : Task) (at_head : task s s.head ≡ some boot)
    (at_new : task s t ≡ some new) (ready : new.state ≡ task_ready) (far : t ≢ s.head) where
  abbrev pub now : Sched H
  now = added s t boot new

  pub now_head : task now s.head ≡ some (record boot { next = t })
  now_head =
      task-put_self (put t (record new { next = boot.next }) s) s.head (record boot { next = t })
        (task-nonzero s s.head boot at_head)

  pub now_inserted : task now t ≡ some (record new { next = boot.next })
  now_inserted =
      task-put_ne (put t (record new { next = boot.next }) s) s.head t (record boot { next = t })
        far
      ∙ task-put_self s t (record new { next = boot.next }) (task-nonzero s t new at_new)

  pub now_other : (x : ℕ) → x ≢ s.head → x ≢ t → task now x ≡ task s x
  now_other x ne ne' =
      task-put_ne (put t (record new { next = boot.next }) s) s.head x (record boot { next = t }) ne
      ∙ task-put_ne s t x (record new { next = boot.next }) ne'

  pub added-Waiting :
      (xs : List ℕ) (stop : ℕ)
      → Waiting s xs stop
      → Apart t xs
      → Distinct xs
      → Waiting now (insert_after s.head t xs) stop
  unfolding insert_after
  added-Waiting [] stop w out d = tt
  added-Waiting (x ∷ xs) stop ((u, e, next, waits), w) (ne, out) (far', d) =
      elim (Bool-cases (x == s.head)) [
        | inl here ↦
            let same : x ≡ s.head = ground arith in
            let u_boot : u ≡ boot = cc in
            rw here (
              (
                record boot { next = t },
                subst (λ a. task now a ≡ some (record boot { next = t })) (sym same) now_head,
                refl,
                ap (λ (b : Task). b.state) (sym u_boot) ∙ waits,
              ),
              (
                (
                  record new { next = boot.next },
                  now_inserted,
                  ap (λ (b : Task). b.next) (sym u_boot) ∙ next,
                  ready,
                ),
                Waiting-frame s now xs s.head t stop now_other (subst (λ a. Apart a xs) same far')
                    out w,
              ),
            )
        | inr else_where ↦ rw else_where (
          (
            u,
            now_other x (ground arith) ne ∙ e,
            next ∙ sym (first-insert_after s.head t xs stop),
            waits,
          ),
          added-Waiting xs stop w out d,
        )
      ]

  pub added-Among :
      (a : ℕ) (c : ℕ) (xs : List ℕ) → Among a (c ∷ xs) → Among a (c ∷ joined s.head t c xs)
  unfolding joined
  added-Among a c xs m = elim (Bool-cases (c == s.head)) [
    | inl e ↦ rw e (elim m [ inl e' ↦ inl e' | inr m' ↦ inr (inr m') ])
    | inr e ↦ rw e (elim m [ inl e' ↦ inl e' | inr m' ↦ inr (Among-insert_after s.head t a xs m') ])
  ]
