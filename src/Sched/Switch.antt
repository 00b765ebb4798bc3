-- ===== src/Sched/Switch.antt =====
-- src/cpu/switch.asm: how a task gives the processor up and takes it back, and where a new one
-- starts.
use arc_monark.Base.{
  ℕ, suc, ◌+◌, ◌-◌, ◌*◌, ◌^◌, ◌≤◌, ◌<◌, ◌≡◌, refl, sym, ap, subst, ◌∙◌, Bool, true, List, [], ◌∷◌,
  ◌++◌, arith, ==_refl, ==_ne, length,
}
use arc_monark.Pmm.{sub64, add64}
use arc_monark.Sched.{update, push_words}

-- The registers that `switch_context` saves, and the address that it returns to.
pub record Registers : Type 0 where
  pub rbp : ℕ
  pub rbx : ℕ
  pub r12 : ℕ
  pub r13 : ℕ
  pub r14 : ℕ
  pub r15 : ℕ
  pub rip : ℕ

-- the six `push`, with `rsp` at the address that is returned to
pub save : Registers → ℕ → (ℕ → ℕ) → ℕ × (ℕ → ℕ)
save r rsp words = push_words (r.rbp ∷ r.rbx ∷ r.r12 ∷ r.r13 ∷ r.r14 ∷ r.r15 ∷ []) rsp words

-- the six `pop`, and `ret`
pub restore : ℕ → (ℕ → ℕ) → Registers × ℕ
restore rsp words = (
  record {
    r15 = words rsp;
    r14 = words (add64 rsp 8);
    r13 = words (add64 rsp 16);
    r12 = words (add64 rsp 24);
    rbx = words (add64 rsp 32);
    rbp = words (add64 rsp 40);
    rip = words (add64 rsp 48);
  },
  add64 rsp 56,
)

-- `switch_context`: the stack pointer that is saved, the words of the stacks, and the registers
-- and the stack pointer of the next task
pub switch_context : Registers → ℕ → ℕ → (ℕ → ℕ) → ℕ × (ℕ → ℕ) × Registers × ℕ
switch_context r rsp new_rsp words =
    let (saved, words') = save r rsp words in
    let (r', rsp') = restore new_rsp words' in (saved, words', r', rsp')

-- `task_trampoline`, up to the call: the function that is called, its argument, and whether
-- interrupts are on
unfoldable pub trampoline : Registers → ℕ × ℕ × Bool
trampoline r = (r.rbx, r.r12, true)

abbrev pub bytes_of : List ℕ → ℕ
bytes_of vs = 8 * length vs

step_down : (b n : ℕ) → b + 8 * suc n < 2 ^ 64 → sub64 (b + 8 * suc n) 8 ≡ b + 8 * n
step_down b n small = omega arith

push_first :
    (v : ℕ) (vs : List ℕ) (b : ℕ) (words : ℕ → ℕ)
    → b + bytes_of (v ∷ vs) < 2 ^ 64
    → push_words (v ∷ vs) (b + bytes_of (v ∷ vs)) words
      ≡ push_words vs (b + bytes_of vs) (update words (b + bytes_of vs) v)
unfolding push_words
push_first v vs b words small =
    ap (λ p. push_words vs p (update words p v)) (step_down b (length vs) small)

-- The values pushed stand below the old stack pointer, which comes down to `b`; the words from it
-- on are as before.
pub push_words_lem :
    (vs : List ℕ) (b : ℕ) (words : ℕ → ℕ)
    → b + bytes_of vs < 2 ^ 64
    → ((push_words vs (b + bytes_of vs) words).0 ≡ b)
      × ((a : ℕ) → b + bytes_of vs ≤ a → (push_words vs (b + bytes_of vs) words).1 a ≡ words a)
unfolding push_words
push_words_lem [] b words small = (omega arith, λ a le. refl)
push_words_lem (v ∷ vs) b words small =
    let (down, same) = push_words_lem vs b (update words (b + bytes_of vs) v) (omega arith) in
    rw (push_first v vs b words small)
      (down, λ a le. same a (omega arith) ∙ rw (==_ne a (b + bytes_of vs) (omega arith)) refl)

push_words_at :
    (front : List ℕ) (v : ℕ) (back : List ℕ) (b : ℕ) (words : ℕ → ℕ)
    → b + bytes_of (front ++ v ∷ back) < 2 ^ 64
    → (push_words (front ++ v ∷ back) (b + bytes_of (front ++ v ∷ back)) words).1
        (b + bytes_of back)
      ≡ v
push_words_at [] v back b words small = rw (push_first v back b words small) (
    (push_words_lem back b (update words (b + bytes_of back) v) (omega arith)).1 (b + bytes_of back)
      (omega arith)
    ∙ rw (==_refl (b + bytes_of back)) refl)
push_words_at (f ∷ front) v back b words small =
    rw (push_first f (front ++ v ∷ back) b words small) (
      push_words_at front v back b (update words (b + bytes_of (front ++ v ∷ back)) f)
        (omega arith))

pub push_words_word :
    (front : List ℕ) (v : ℕ) (back : List ℕ) (b a : ℕ) (words : ℕ → ℕ)
    → b + bytes_of (front ++ v ∷ back) < 2 ^ 64
    → a ≡ b + bytes_of back
    → (push_words (front ++ v ∷ back) (b + bytes_of (front ++ v ∷ back)) words).1 a ≡ v
push_words_word front v back b a words small at =
    ap (push_words (front ++ v ∷ back) (b + bytes_of (front ++ v ∷ back)) words).1 at
    ∙ push_words_at front v back b words small

-- `restore` of seven words that stand from `b` on
pub restore_lem :
    (b : ℕ) (w : ℕ → ℕ) (r : Registers)
    → b + 56 < 2 ^ 64
    → w b ≡ r.r15
    → w (b + 8) ≡ r.r14
    → w (b + 16) ≡ r.r13
    → w (b + 24) ≡ r.r12
    → w (b + 32) ≡ r.rbx
    → w (b + 40) ≡ r.rbp
    → w (b + 48) ≡ r.rip
    → restore b w ≡ (r, b + 56)
unfolding restore
restore_lem b w r small a0 a8 a16 a24 a32 a40 a48 =
    let e8 : add64 b 8 ≡ b + 8 = omega arith in
    let e16 : add64 b 16 ≡ b + 16 = omega arith in
    let e24 : add64 b 24 ≡ b + 24 = omega arith in
    let e32 : add64 b 32 ≡ b + 32 = omega arith in
    let e40 : add64 b 40 ≡ b + 40 = omega arith in
    let e48 : add64 b 48 ≡ b + 48 = omega arith in
    let e56 : add64 b 56 ≡ b + 56 = omega arith in
    rw (e8, e16, e24, e32, e40, e48, e56) (rw (a0, a8, a16, a24, a32, a40, a48) refl)

restored :
    (r : Registers) (b : ℕ) (words later : ℕ → ℕ)
    → b + 56 < 2 ^ 64
    → words (b + 48) ≡ r.rip
    → ((a : ℕ) → b ≤ a → a ≤ b + 48 → later a ≡ (save r (b + 48) words).1 a)
    → restore (save r (b + 48) words).0 later ≡ (r, b + 56)
unfolding save
restored r b words later small ret same =
    let all : List ℕ = r.rbp ∷ r.rbx ∷ r.r12 ∷ r.r13 ∷ r.r14 ∷ r.r15 ∷ [] in
    let (down, above) = push_words_lem all b words (omega arith) in
    rw down (
      restore_lem b later r small
        (same b (omega arith) (omega arith)
          ∙ push_words_word (r.rbp ∷ r.rbx ∷ r.r12 ∷ r.r13 ∷ r.r14 ∷ []) r.r15 [] b b words
              (omega arith) (omega arith))
        (same (b + 8) (omega arith) (omega arith)
          ∙ push_words_word (r.rbp ∷ r.rbx ∷ r.r12 ∷ r.r13 ∷ []) r.r14 (r.r15 ∷ []) b (b + 8) words
              (omega arith) (omega arith))
        (same (b + 16) (omega arith) (omega arith)
          ∙ push_words_word (r.rbp ∷ r.rbx ∷ r.r12 ∷ []) r.r13 (r.r14 ∷ r.r15 ∷ []) b (b + 16) words
              (omega arith) (omega arith))
        (same (b + 24) (omega arith) (omega arith)
          ∙ push_words_word (r.rbp ∷ r.rbx ∷ []) r.r12 (r.r13 ∷ r.r14 ∷ r.r15 ∷ []) b (b + 24) words
              (omega arith) (omega arith))
        (same (b + 32) (omega arith) (omega arith)
          ∙ push_words_word (r.rbp ∷ []) r.rbx (r.r12 ∷ r.r13 ∷ r.r14 ∷ r.r15 ∷ []) b (b + 32) words
              (omega arith) (omega arith))
        (same (b + 40) (omega arith) (omega arith)
          ∙ push_words_word [] r.rbp (r.rbx ∷ r.r12 ∷ r.r13 ∷ r.r14 ∷ r.r15 ∷ []) b (b + 40) words
              (omega arith) (omega arith))
        (same (b + 48) (omega arith) (omega arith) ∙ (above (b + 48) (omega arith) ∙ ret)))

-- A task that has given the processor up takes it back with its registers, its stack pointer and
-- the address behind the call as they were, as long as nothing has written to the words that it
-- saved.
pub save-restore :
    (r : Registers) (rsp : ℕ) (words later : ℕ → ℕ)
    → 48 ≤ rsp
    → rsp + 8 < 2 ^ 64
    → words rsp ≡ r.rip
    → ((a : ℕ) → rsp ≤ a + 48 → a ≤ rsp → later a ≡ (save r rsp words).1 a)
    → restore (save r rsp words).0 later ≡ (r, rsp + 8)
save-restore r rsp words later low high ret same =
    let b : ℕ = rsp - 48 in
    let at : b + 48 ≡ rsp = omega arith in
    subst (λ p. restore (save r p words).0 later ≡ (r, p + 8)) at
      (restored r b words later (omega arith) (ap words at ∙ ret)
          (λ a lo up. same a (omega arith) (omega arith) ∙ ap (λ p. (save r p words).1 a) (sym at))
        ∙ ap (λ p. (r, p)) (omega arith))
