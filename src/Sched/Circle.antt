-- ===== src/Sched/Circle.antt =====
-- The circle of tasks in src/sched/sched.c.
use arc_monark.Base.{
  ℕ, zero, suc, ◌+◌, ◌^◌, ◌≤◌, ◌<◌, ◌≡◌, refl, sym, ap, ◌∙◌, ◌≢◌, true, false, Option, none, some,
  List, [], ◌∷◌, arith, ◌==◌, if◌then◌else◌, length,
}
use arc_monark.Sched.{
  Task, Sched, is_dead, ◌>>=◌, task, put, list_add, tally, count_loop, sched_task_count,
}

-- the address of the first task, or `stop`
abbrev pub first : List ℕ → ℕ → ℕ
first [] stop = stop
first (x ∷ xs) stop = x

-- Each of the addresses `xs` is that of a task, whose `next` is the following one; the last one's is
-- `stop`, and none of them is `stop`.
abbrev pub Links : {H : Type 0} → Sched H → List ℕ → ℕ → Type 0
Links s [] stop = Unit {0}
Links s (x ∷ xs) stop =
    ((t : Task) × (task s x ≡ some t) × (t.next ≡ first xs stop)) × (x ≢ stop) × Links s xs stop

-- The tasks `xs` after the head, in a circle.
pub record Circle {H : Type 0} (s : Sched H) (xs : List ℕ) : Type 0 where
  pub boot : Task
  pub at_head : task s s.head ≡ some boot
  pub after_head : boot.next ≡ first xs s.head
  pub others : Links s xs s.head

-- 1 for a task that is not dead
unfoldable pub alive : Option Task → ℕ
alive none = 0
alive (some t) = if is_dead t.state then 0 else 1

unfoldable pub count_alive : {H : Type 0} → Sched H → List ℕ → ℕ
count_alive s [] = 0
count_alive s (x ∷ xs) = alive (task s x) + count_alive s xs

-- one turn of the loop
counted : (n : ℕ) (t : Task) → n + 1 < 2 ^ 32 → tally t n ≡ n + alive (some t)
unfolding alive tally
counted n t small = ground arith

alive-le : (t : Task) → alive (some t) ≤ 1
unfolding alive
alive-le t = ground arith

count_loop-count_alive :
    {H : Type 0} (s : Sched H) (k n x : ℕ) (xs : List ℕ) (t : Task)
    → task s x ≡ some t
    → t.next ≡ first xs s.head
    → Links s xs s.head
    → length xs < k
    → n + (1 + length xs) < 2 ^ 32
    → count_loop k x n s ≡ some (n + count_alive s (x ∷ xs))
unfolding count_loop count_alive
count_loop-count_alive s zero n x xs t e next links lt small = absurd (omega arith)
count_loop-count_alive s (suc k) n x [] t e next links lt small =
    let last : (t.next == s.head) ≡ true = ground (arith, next) in
    rw (e, count_loop) (rw (last, counted n t (omega arith)) (ap (λ i. some i) (omega arith)))
count_loop-count_alive s (suc k) n x (y ∷ ys) t e next links lt small =
    let ((t', e', next'), ne, rest) = links in
    let not_last : (t.next == s.head) ≡ false = ground (arith, next, ne) in
    rw (e, count_loop)
      (rw (not_last, counted n t (omega arith))
        (ap (λ p. count_loop k p (n + alive (some t)) s) next
          ∙ (count_loop-count_alive s k (n + alive (some t)) y ys t' e' next' rest (omega arith)
                (omega (arith, alive-le t))
              ∙ ap (λ i. some i) (omega arith))))

-- On a circle of fewer tasks than 2^32, `sched_task_count` comes round to the head, and gives the
-- number of tasks in the circle that are not dead.
pub sched_task_count-count_alive :
    {H : Type 0} (s : Sched H) (rounds : ℕ) (xs : List ℕ)
    → Circle s xs
    → length xs < rounds
    → length xs + 1 < 2 ^ 32
    → sched_task_count rounds s ≡ some (count_alive s (s.head ∷ xs))
unfolding sched_task_count
sched_task_count-count_alive s rounds xs c lt small =
    count_loop-count_alive s rounds 0 s.head xs c.boot c.at_head c.after_head c.others lt
      (omega arith)
    ∙ ap (λ i. some i) (omega arith)

-- The address `a` is not among `xs`.
abbrev pub Apart : ℕ → List ℕ → Type 0
Apart a [] = Unit {0}
Apart a (x ∷ xs) = (x ≢ a) × Apart a xs

-- what `list_add` makes of the tasks
abbrev pub added : {H : Type 0} → Sched H → ℕ → Task → Task → Sched H
added s t boot new =
    put s.head (record boot { next = t }) (put t (record new { next = boot.next }) s)

pub task-put_ne :
    {H : Type 0} (s : Sched H) (p q : ℕ) (t : Task) → q ≢ p → task (put p t s) q ≡ task s q
unfolding task put
task-put_ne s p q t ne = ground arith

pub task-put_self :
    {H : Type 0} (s : Sched H) (p : ℕ) (t : Task) → p ≢ 0 → task (put p t s) p ≡ some t
unfolding task put
task-put_self s p t ne = ground arith

pub task-nonzero : {H : Type 0} (s : Sched H) (p : ℕ) (t : Task) → task s p ≡ some t → p ≢ 0
unfolding task
task-nonzero s p t e = ground arith

Links-added :
    {H : Type 0} (s : Sched H) (t : ℕ) (boot new : Task) (xs : List ℕ)
    → Apart t xs
    → Links s xs s.head
    → Links (added s t boot new) xs s.head
Links-added s t boot new [] apart links = tt
Links-added s t boot new (x ∷ xs) (ne, apart) ((u, e, next), far, rest) = (
  (
    u,
    task-put_ne (put t (record new { next = boot.next }) s) s.head x (record boot { next = t }) far
        ∙ (task-put_ne s t x (record new { next = boot.next }) ne ∙ e),
    next,
  ),
  far,
  Links-added s t boot new xs apart rest,
)

pub list_add-runs :
    {H : Type 0} (s : Sched H) (t : ℕ) (boot new : Task)
    → task s s.head ≡ some boot
    → task s t ≡ some new
    → t ≢ s.head
    → list_add t s ≡ some (added s t boot new)
unfolding list_add
list_add-runs s t boot new at_head at_new far =
    let still : task (put t (record new { next = boot.next }) s) s.head ≡ some boot =
      task-put_ne s t s.head (record new { next = boot.next }) (λ e. far (sym e)) ∙ at_head in
    rw (at_head, ◌>>=◌) (rw (at_new, ◌>>=◌) (rw still refl))

-- `list_add` puts a task that is not in the circle behind the head.
pub list_add-Circle :
    {H : Type 0} (s : Sched H) (t : ℕ) (new : Task) (xs : List ℕ)
    → Circle s xs
    → task s t ≡ some new
    → t ≢ s.head
    → Apart t xs
    → (s' : Sched H) × (list_add t s ≡ some s') × Circle s' (t ∷ xs)
unfolding put
list_add-Circle s t new xs c e far apart = (
  added s t c.boot new,
  list_add-runs s t c.boot new c.at_head e far,
  record {
    boot = record c.boot { next = t };
    at_head =
        task-put_self (put t (record new { next = c.boot.next }) s) s.head
          (record c.boot { next = t }) (task-nonzero s s.head c.boot c.at_head);
    after_head = refl;
    others = (
      (
        record new { next = c.boot.next },
        task-put_ne (put t (record new { next = c.boot.next }) s) s.head t
              (record c.boot { next = t }) far
            ∙ task-put_self s t (record new { next = c.boot.next }) (task-nonzero s t new e),
        c.after_head,
      ),
      far,
      Links-added s t c.boot new xs apart c.others,
    );
  },
)
