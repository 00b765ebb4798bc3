-- ===== src/Event/Refine.antt =====
-- The ring in src/kernel/event.c as a queue that drops its oldest event when it is full.
use arc_monark.Base.{
  ℕ, zero, suc, ◌+◌, ◌-◌, ◌%◌, ◌<◌, ◌≡◌, refl, sym, ap, ap₂, ◌∙◌, ◌≢◌, inl, inr, Bool, true, false,
  Option, none, some, List, [], ◌∷◌, ◌++◌, arith, ◌==◌, if◌then◌else◌, ==_ne, ==→eq, ==→ne,
  Bool-cases, length, get_or, set, get_or-set_self, get_or-set_ne,
}
use arc_monark.Base.Irq.{Flags}
use arc_monark.Event.{
  Event, EventQueue, event_pending, zero_event, evq_size, next_slot, event_push, event_poll, Op,
  push, poll, run,
}
use arc_monark.Event.Ring.{IsValid, next_slot-mod, event_push-IsValid, event_poll-IsValid}

-- The abstract queue, oldest event first. A ring of 256 slots holds 255 events.
abbrev pub Queue : Type 0
Queue = List Event

abbrev pub capacity : ℕ
capacity = 255

unfoldable pub drop_oldest : Queue → Queue
drop_oldest [] = []
drop_oldest (x ∷ xs) = xs

unfoldable pub spec_push : Event → Queue → Queue
unfolding drop_oldest
spec_push e xs = (if length xs == capacity then drop_oldest xs else xs) ++ e ∷ []

unfoldable pub spec_poll : Queue → Option Event × Queue
spec_poll [] = (none, [])
spec_poll (x ∷ xs) = (some x, xs)

unfoldable pub spec_run : List Op → Queue → List (Option Event) × Queue
unfolding spec_push spec_poll
spec_run [] xs = ([], xs)
spec_run (push e ∷ ops) xs = spec_run ops (spec_push e xs)
spec_run (poll ∷ ops) xs =
    let (out, xs') = spec_poll xs in let (outs, end) = spec_run ops xs' in (out ∷ outs, end)

module _ (buf : List Event) where
  -- the `n` events from slot `i` on, going round
  abbrev pub window : ℕ → ℕ → Queue
  window i zero = []
  window i (suc n) = get_or buf i zero_event ∷ window ((i + 1) % evq_size) n

  length-window : (i n : ℕ) → length (window i n) ≡ n
  length-window i zero = refl
  length-window i (suc n) = ap suc (length-window ((i + 1) % evq_size) n)

  window_suc :
      (i n : ℕ) → n ≢ 0 → window i n ≡ get_or buf i zero_event ∷ window ((i + 1) % evq_size) (n - 1)
  window_suc i zero h = absurd (h refl)
  window_suc i (suc n) h = ap (λ k. window i (suc k)) (omega arith)

-- A write just behind a window extends it.
window-set :
    (buf : List Event) (e : Event) (n i j : ℕ)
    → length buf ≡ evq_size
    → i < evq_size
    → n < evq_size
    → j ≡ (i + n) % evq_size
    → window (set buf j e) i (suc n) ≡ window buf i n ++ e ∷ []
window-set buf e zero i j len hi hn at =
    ap (λ x. x ∷ [])
      (ap (λ k. get_or (set buf j e) k zero_event) (omega arith)
        ∙ get_or-set_self buf j e zero_event (omega arith))
window-set buf e (suc n) i j len hi hn at =
    ap₂ ◌∷◌ (get_or-set_ne buf j i e zero_event (omega arith))
      (window-set buf e n ((i + 1) % evq_size) j len (omega arith) (omega arith) (omega arith))

abbrev pub is_some : Option Event → Bool
is_some none = false
is_some (some e) = true

-- how many events are stored
abbrev pub count : EventQueue → ℕ
count s = (s.q_head + evq_size - s.q_tail) % evq_size

abbrev pub contents : EventQueue → Queue
contents s = window s.q s.q_tail (count s)

pub length-contents : (s : EventQueue) → length (contents s) ≡ count s
length-contents s = length-window s.q s.q_tail (count s)

-- a push onto a full window, and one onto a queue with room
drop_oldest-window :
    (buf : List Event) (i n m : ℕ)
    → n ≡ suc m
    → drop_oldest (window buf i n) ≡ window buf ((i + 1) % evq_size) m
unfolding drop_oldest
drop_oldest-window buf i n m h = ap (λ k. drop_oldest (window buf i k)) h

spec_push-full :
    (xs : Queue) (e : Event) → length xs ≡ capacity → spec_push e xs ≡ drop_oldest xs ++ e ∷ []
unfolding spec_push
spec_push-full xs e h = rw h

spec_push-room : (xs : Queue) (e : Event) → length xs ≢ capacity → spec_push e xs ≡ xs ++ e ∷ []
unfolding spec_push
spec_push-room xs e h = rw (==_ne (length xs) capacity h)

module _ {s : EventQueue} (v : IsValid s) where
  -- On a valid ring, `event_push` drops the oldest event if it is full, and stores the new one as
  -- the newest; on any other ring it only appends.
  pub event_push-spec_push : (e : Event) → contents (event_push e s) ≡ spec_push e (contents s)
  unfolding event_push spec_push
  event_push-spec_push e = elim (Bool-cases (next_slot s.q_head == s.q_tail)) [
    | inl full ↦ rw full (
        ap₂ (window (set s.q s.q_head e)) {v = 255} (next_slot-mod s.q_tail v.tail_in)
          (omega (arith, ==→eq full, next_slot-mod s.q_head, next_slot-mod s.q_tail))
        ∙ (window-set s.q e 254 ((s.q_tail + 1) % evq_size) s.q_head v.slots (omega arith)
              (omega arith) (omega (arith, ==→eq full, next_slot-mod s.q_head))
            ∙ sym (
                spec_push-full (contents s) e
                  (omega (arith, length-contents s, ==→eq full, next_slot-mod s.q_head))
                ∙ ap (λ w. w ++ e ∷ [])
                    (drop_oldest-window s.q s.q_tail (count s) 254
                      (omega (arith, ==→eq full, next_slot-mod s.q_head))))))
    | inr room ↦ rw room (
        ap (window (set s.q s.q_head e) s.q_tail) {y = suc (count s)}
          (omega (arith, ==→ne _ _ room, next_slot-mod s.q_head))
        ∙ (window-set s.q e (count s) s.q_tail s.q_head v.slots v.tail_in
              (omega (arith, ==→ne _ _ room, next_slot-mod s.q_head)) (omega arith)
            ∙ sym (
                spec_push-room (contents s) e
                  (omega (arith, length-contents s, ==→ne _ _ room, next_slot-mod s.q_head)))))
  ]

  -- On a valid ring, `event_poll` gives the oldest event and removes it, or says that there is
  -- none and changes nothing; the interrupt flag is afterwards as it was.
  pub event_poll-spec_poll :
      (f : Flags)
      → let (out, f', s') = event_poll f s in
        ((out, contents s') ≡ spec_poll (contents s)) × (f' ≡ f)
  unfolding event_poll spec_poll
  event_poll-spec_poll f = ground (arith, next_slot-mod s.q_tail, window_suc s.q s.q_tail (count s))

-- On a valid ring, any interleaving of pushes and polls gives the polls what the abstract queue
-- gives them, and leaves its contents behind.
pub run-spec_run :
    (f : Flags) (ops : List Op) {s : EventQueue}
    → IsValid s
    → let (outs, end) = run f ops s in (outs, contents end) ≡ spec_run ops (contents s)
unfolding run spec_run
run-spec_run f [] v = refl
run-spec_run f (push e ∷ ops) v =
    rw (← event_push-spec_push v e) (run-spec_run f ops (event_push-IsValid e v))
run-spec_run f (poll ∷ ops) {s} v =
    ground (
      arith,
      event_poll-spec_poll v f,
      run-spec_run (event_poll f s).1 ops (event_poll-IsValid f v),
    )

-- `event_pending` says whether the next poll will give an event.
pub event_pending-poll : (f : Flags) (s : EventQueue) → event_pending s ≡ is_some (event_poll f s).0
unfolding event_pending event_poll
event_pending-poll f s = ground arith
