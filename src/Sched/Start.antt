-- ===== src/Sched/Start.antt =====
-- Where a task that `task_create` of src/sched/sched.c makes starts, once src/cpu/switch.asm
-- switches to it.
use arc_monark.Base.{
  ℕ, ◌+◌, ◌-◌, ◌/◌, ◌%◌, ◌^◌, ◌<◌, bit_and, ◌≡◌, refl, ap, ◌∙◌, ◌≢◌, true, some, List, [], ◌∷◌,
  arith,
}
use arc_monark.Base.Masks.{bit_and-ones, bit_and-shift}
use arc_monark.Pmm.{add64}
use arc_monark.Sched.{push_words, kstack_size, Task, Allocator, Sched, task, task_create}
use arc_monark.Sched.Circle.{Apart}
use arc_monark.Sched.Queue.{Queue}
use arc_monark.Sched.Create.{made_at, stack_at, frame, task_create-Queue}
use arc_monark.Sched.Switch.{
  Registers, restore, trampoline, push_words_word, push_words_lem, restore_lem,
}

-- the registers of a new task
abbrev pub fresh : ℕ → ℕ → ℕ → Registers
fresh task_trampoline entry arg = record {
  rbp = 0;
  rbx = entry;
  r12 = arg;
  r13 = 0;
  r14 = 0;
  r15 = 0;
  rip = task_trampoline;
}

aligned_top :
    (stack : ℕ)
    → stack % 16 ≡ 0
    → stack + kstack_size < 2 ^ 64
    → bit_and (add64 stack kstack_size) (2 ^ 64 - 16) ≡ stack + kstack_size
aligned_top stack aligned small = omega (
  arith,
  bit_and-shift 4 ((stack + 16384) % 18446744073709551616) (2 ^ 60 - 1),
  bit_and-ones 60 ((stack + 16384) % 18446744073709551616 / 16),
)

frame-fresh :
    (task_trampoline entry arg b : ℕ) (words : ℕ → ℕ)
    → b + 56 < 2 ^ 64
    → restore
        (push_words (task_trampoline ∷ 0 ∷ entry ∷ arg ∷ 0 ∷ 0 ∷ 0 ∷ []) (b + 56) words).0
        (push_words (task_trampoline ∷ 0 ∷ entry ∷ arg ∷ 0 ∷ 0 ∷ 0 ∷ []) (b + 56) words).1
      ≡ (fresh task_trampoline entry arg, b + 56)
frame-fresh p e a b words small =
    let all : List ℕ = p ∷ 0 ∷ e ∷ a ∷ 0 ∷ 0 ∷ 0 ∷ [] in
    let (down, above) = push_words_lem all b words small in
    ap (λ r. restore r (push_words all (b + 56) words).1) down
    ∙ restore_lem b (push_words all (b + 56) words).1 (fresh p e a) small
        (push_words_word (p ∷ 0 ∷ e ∷ a ∷ 0 ∷ 0 ∷ []) 0 [] b b words small (omega arith))
        (push_words_word (p ∷ 0 ∷ e ∷ a ∷ 0 ∷ []) 0 (0 ∷ []) b (b + 8) words small (omega arith))
        (push_words_word (p ∷ 0 ∷ e ∷ a ∷ []) 0 (0 ∷ 0 ∷ []) b (b + 16) words small (omega arith))
        (push_words_word (p ∷ 0 ∷ e ∷ []) a (0 ∷ 0 ∷ 0 ∷ []) b (b + 24) words small (omega arith))
        (push_words_word (p ∷ 0 ∷ []) e (a ∷ 0 ∷ 0 ∷ 0 ∷ []) b (b + 32) words small (omega arith))
        (push_words_word (p ∷ []) 0 (e ∷ a ∷ 0 ∷ 0 ∷ 0 ∷ []) b (b + 40) words small (omega arith))
        (push_words_word [] p (0 ∷ e ∷ a ∷ 0 ∷ 0 ∷ 0 ∷ []) b (b + 48) words small (omega arith))

-- A task that `task_create` makes on a stack that `kmalloc` gives, which 16 divides, starts at
-- `task_trampoline` when it is switched to, with its stack empty, and that turns interrupts on
-- and calls `entry` with `arg`.
pub task_create-starts :
    (A : Allocator) (task_trampoline : ℕ) (old : Task) (entry arg : ℕ) (s : Sched A.State) (c : ℕ)
    (xs : List ℕ) (q : Queue s c xs)
    → made_at A s ≢ 0
    → Apart (made_at A s) (c ∷ xs)
    → made_at A s ≢ s.zombie
    → stack_at A s % 16 ≡ 0
    → stack_at A s + kstack_size < 2 ^ 64
    → (s' : Sched A.State) × (u : Task) × (task_create A task_trampoline old entry arg s
        ≡ some (made_at A s, s'))
      × (task s' (made_at A s) ≡ some u)
      × (restore u.rsp s'.words ≡ (fresh task_trampoline entry arg, stack_at A s + kstack_size))
      × (trampoline (fresh task_trampoline entry arg) ≡ (entry, arg, true))
unfolding trampoline
task_create-starts A p old entry arg s c xs q ne out kept aligned small =
    let (s', runs, q', words, tid, (u, at_u, rsp, id)) =
      task_create-Queue A p old entry arg s c xs q ne out kept in
    let b : ℕ = stack_at A s + 16328 in
    let top : bit_and (add64 (stack_at A s) kstack_size) (2 ^ 64 - 16) ≡ b + 56 =
      aligned_top (stack_at A s) aligned small ∙ omega arith in
    (
      s',
      u,
      runs,
      at_u,
      ap (λ r. restore r s'.words) rsp
          ∙ (ap (restore (frame p entry arg (stack_at A s) s.words).0) words
              ∙ (ap
                    (λ x.
                      restore (push_words (p ∷ 0 ∷ entry ∷ arg ∷ 0 ∷ 0 ∷ 0 ∷ []) x s.words).0
                        (push_words (p ∷ 0 ∷ entry ∷ arg ∷ 0 ∷ 0 ∷ 0 ∷ []) x s.words).1)
                    top
                  ∙ (frame-fresh p entry arg b s.words (omega arith)
                      ∙ ap (λ x. (fresh p entry arg, x)) {x = b + 56} (omega arith)))),
      refl,
    )
