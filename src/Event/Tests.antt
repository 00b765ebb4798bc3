-- ===== src/Event/Tests.antt =====
-- The event queue on concrete data.
use arc_monark.Base.{ℕ, ◌≡◌, refl, true, none, some, List, [], ◌∷◌, arith, replicate}
use arc_monark.Event.{
  Event, EventQueue, zero_event, ev_key_down, next_slot, event_push, event_poll, Op, push, poll,
  run,
}
use arc_monark.Event.Ring.{IsValid}
use arc_monark.Event.Refine.{contents, spec_run, run-spec_run}

abbrev key : ℕ → Event
key c = record zero_event { kind = ev_key_down; ch = c }

abbrev fresh : EventQueue
fresh = record { q = replicate 256 zero_event; q_head = 0; q_tail = 0 }

-- one slot is left: head is just behind tail
abbrev full : EventQueue
full = record { q = replicate 256 (key 7); q_head = 4; q_tail = 5 }

abbrev script : List Op
script = push (key 97) ∷ push (key 98) ∷ poll ∷ poll ∷ poll ∷ []

run-script : (run true script fresh).0 ≡ some (key 97) ∷ some (key 98) ∷ none ∷ []
unfolding run event_push event_poll next_slot
run-script = refl

full-IsValid : IsValid full
full-IsValid = record { slots = refl; head_in = omega arith; tail_in = omega arith }

fresh-IsValid : IsValid fresh
fresh-IsValid = record { slots = refl; head_in = omega arith; tail_in = omega arith }

run-spec_run_example :
    let (outs, end) = run true script full in (outs, contents end) ≡ spec_run script (contents full)
run-spec_run_example = run-spec_run true script full-IsValid
