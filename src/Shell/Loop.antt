-- ===== src/Shell/Loop.antt =====
-- The loop of `cmd_events` in src/kernel/kernel.c on the queue of events.
use arc_monark.Base.{
  ℕ, suc, ◌^◌, ◌<◌, ◌≡◌, refl, sym, ap, ◌∙◌, ◌⊎◌, inl, inr, Bool, true, false, Option, none, some,
  List, [], ◌∷◌, arith, ◌==◌, Bool-cases, Option-cases,
}
use arc_monark.Base.Irq.{Flags}
use arc_monark.Event.{
  EventType, ev_none, ev_key_down, ev_key_up, ev_mouse_move, ev_mouse_down, ev_mouse_up, Event,
  EventQueue, event_push, event_poll, Op, push, poll, run,
}
use arc_monark.Shell.{Shell}
use arc_monark.Shell.Runs.{Leaves}
use arc_monark.Console.Cursor.{IsValid}
use arc_monark.Event.Ring
use arc_monark.Event.Refine.{Queue, contents, spec_run, run-spec_run}
use arc_monark.Shell.Tools.{
  say_key, say_down, say_up, say_kind, say_event, is_escape, push_all, event_loop,
}
use arc_monark.Shell.Speech.{then-Leaves, Quiet, say_kind-Quiet}

-- what happens to the queue while the loop runs
abbrev pub pushes : List Event → List Op → List Op
pushes [] ops = ops
pushes (e ∷ es) ops = push e ∷ pushes es ops

abbrev pub polls : List (List Event) → List Op
polls [] = []
polls (batch ∷ later) = pushes batch (poll ∷ polls later)

-- Is the escape key pressed, whose scan code is 1? Not when it is let go.
abbrev pub is_press : EventType → ℕ → Bool
is_press ev_none code = false
is_press ev_key_down code = code == 1
is_press ev_key_up code = false
is_press ev_mouse_move code = false
is_press ev_mouse_down code = false
is_press ev_mouse_up code = false

press-is_escape :
    (kind : EventType) (e : Event) → e.kind ≡ kind → is_escape e ≡ is_press kind e.scancode
unfolding is_escape
press-is_escape ev_none e h = rw h refl
press-is_escape ev_key_down e h = rw h refl
press-is_escape ev_key_up e h = rw h refl
press-is_escape ev_mouse_move e h = rw h refl
press-is_escape ev_mouse_down e h = rw h refl
press-is_escape ev_mouse_up e h = rw h refl

module _ {S : Type 0} where
  -- the text about an event: of a key that goes down, or of a button
  abbrev pub tell : ℕ → EventType → Event → Shell S → Option (Shell S)
  tell k ev_none e s = some s
  tell k ev_key_down e s = say_key k e s
  tell k ev_key_up e s = some s
  tell k ev_mouse_move e s = some s
  tell k ev_mouse_down e s = say_down k e s
  tell k ev_mouse_up e s = say_up k e s

  tell-say_event :
      (k : ℕ) (kind : EventType) (e : Event) (s : Shell S)
      → e.kind ≡ kind
      → say_event k e s ≡ tell k kind e s
  unfolding say_event say_kind
  tell-say_event k ev_none e s h = rw h refl
  tell-say_event k ev_key_down e s h = rw h refl
  tell-say_event k ev_key_up e s h = rw h refl
  tell-say_event k ev_mouse_move e s h = rw h refl
  tell-say_event k ev_mouse_down e s h = rw h refl
  tell-say_event k ev_mouse_up e s h = rw h refl

  -- What the answers of the polls are to come to: events are told one after the other, up to the first
  -- press of the escape key.
  unfoldable pub handle : ℕ → List (Option Event) → Shell S → Option (Shell S)
  handle k [] s = none
  handle k (none ∷ outs) s = handle k outs s
  handle k (some e ∷ outs) s = elim (is_press e.kind e.scancode) [
    | true ↦ some s
    | false ↦ elim (tell k e.kind e s) [ none ↦ none | some t ↦ handle k outs t ]
  ]

  abbrev pub shell_of : Option (EventQueue × Shell S) → Option (Shell S)
  shell_of r = elim r [ none ↦ none | some (q, s) ↦ some s ]

run-pushes :
    (f : Flags) (batch : List Event) (ops : List Op) (q : EventQueue)
    → run f (pushes batch ops) q ≡ run f ops (push_all batch q)
unfolding run push_all
run-pushes f [] ops q = refl
run-pushes f (e ∷ batch) ops q = run-pushes f batch ops (event_push e q)

module _ {S : Type 0} where
  -- one answer of a poll, and the rest of the loop
  answer-handle :
      (k : ℕ) (out : Option Event) (q : EventQueue) (go : Shell S → Option (EventQueue × Shell S))
      (outs : List (Option Event)) (s : Shell S)
      → ((t : Shell S) → shell_of (go t) ≡ handle k outs t)
      → shell_of (elim out [
        | none ↦ go s
        | some e ↦ elim (is_escape e) [
          | true ↦ some (q, s)
          | false ↦ elim (say_event k e s) [ none ↦ none | some t ↦ go t ]
        ]
      ])
        ≡ handle k (out ∷ outs) s
  unfolding handle
  answer-handle k none q go outs s same = same s
  answer-handle k (some e) q go outs s same =
      let escape = press-is_escape e.kind e refl in
      let told = tell-say_event k e.kind e s refl in
      elim (Bool-cases (is_press e.kind e.scancode)) [
        | inl stop ↦
            let stop' : is_escape e ≡ true = escape ∙ stop in rw stop' (rw (handle, stop) refl)
        | inr more ↦
            let more' : is_escape e ≡ false = escape ∙ more in
            elim (Option-cases (tell k e.kind e s)) [
              | inl stuck ↦
                  let stuck' : say_event k e s ≡ none = told ∙ stuck in
                  rw more' (rw stuck' (rw (handle, more) (rw stuck refl)))
              | inr (t, said) ↦
                  let said' : say_event k e s ≡ some t = told ∙ said in
                  rw more' (rw said' (rw (handle, more) (rw said (same t))))
            ]
      ]

  -- The loop does with the answers of its polls what `handle` does with a list of them.
  event_loop-handle :
      (k : ℕ) (batches : List (List Event)) (f : Flags) (q : EventQueue) (s : Shell S)
      → shell_of (event_loop k batches f q s) ≡ handle k (run f (polls batches) q).0 s
  unfolding event_loop handle run
  event_loop-handle k [] f q s = refl
  event_loop-handle k (batch ∷ later) f q s =
      let (out, f', q') = event_poll f (push_all batch q) in
      answer-handle k out q' (event_loop k later f' q') (run f' (polls later) q').0 s
        (event_loop-handle k later f' q')
      ∙ ap (λ r. handle k r.0 s) (sym (run-pushes f batch (poll ∷ polls later) q))

-- An escape key is pressed among the answers, behind events whose fields are machine words: the key
-- with the scan code 1 goes down.
abbrev pub Escapes : List (Option Event) → Type 0
Escapes [] = ⊥
Escapes (none ∷ outs) = Escapes outs
Escapes (some e ∷ outs) =
    ((e.kind ≡ ev_key_down) × (e.scancode ≡ 1))
    ⊎ ((e.scancode < 2 ^ 64) × (e.button < 2 ^ 64) × Escapes outs)

pressed :
    (e : Event) → e.kind ≡ ev_key_down → e.scancode ≡ 1 → is_press e.kind e.scancode ≡ false → ⊥
pressed e down one not_so =
    let yes_it_is : is_press e.kind e.scancode ≡ true = rw (down, one) refl in
    absurd (ground (arith, yes_it_is, not_so))

module _ {S : Type 0} where
  tell-Quiet :
      (k : ℕ) (kind : EventType) (e : Event)
      → e.scancode < 2 ^ 64
      → e.button < 2 ^ 64
      → Quiet {S = S} (tell (suc (suc k)) kind e)
  unfolding say_kind
  tell-Quiet k ev_none e code button = say_kind-Quiet k ev_none e code button
  tell-Quiet k ev_key_down e code button = say_kind-Quiet k ev_key_down e code button
  tell-Quiet k ev_key_up e code button = say_kind-Quiet k ev_key_up e code button
  tell-Quiet k ev_mouse_move e code button = say_kind-Quiet k ev_mouse_move e code button
  tell-Quiet k ev_mouse_down e code button = say_kind-Quiet k ev_mouse_down e code button
  tell-Quiet k ev_mouse_up e code button = say_kind-Quiet k ev_mouse_up e code button

  handle-Quiet :
      (k : ℕ) (outs : List (Option Event))
      → Escapes outs
      → Quiet {S = S} (handle (suc (suc k)) outs)
  unfolding handle say_event say_kind
  handle-Quiet k [] h s v = elim h [ ]
  handle-Quiet k (none ∷ outs) h s v = handle-Quiet k outs h s v
  handle-Quiet k (some e ∷ outs) h s v = elim (Bool-cases (is_press e.kind e.scancode)) [
    | inl stop ↦ rw (stop, handle) (s, refl, v, refl, refl, refl)
    | inr more ↦ elim h [
      | inl (down, one) ↦ absurd (pressed e down one more)
      | inr (code, button, rest) ↦
          rw (more, handle)
            (then-Leaves s (tell-Quiet k e.kind e code button s v) (handle-Quiet k outs rest))
    ]
  ]

  -- On a valid ring and a valid console, with fuel of at least 2, the loop of `cmd_events` takes
  -- the events that a queue of at most 255, which drops its oldest, gives its polls, in their order,
  -- whatever interrupts push before each of them. It calls `say_key` for a key that goes down,
  -- `say_down` and `say_up` for a button, and passes over the others, up to the first press of the escape
  -- key, scan code 1, where there is one among them behind events whose fields are machine words: there
  -- it ends, with a valid console and the settings and colours as they were.
  pub event_loop-Quiet :
      (k : ℕ) (batches : List (List Event)) (f : Flags) (q : EventQueue) (s : Shell S)
      → Ring.IsValid q
      → IsValid s.console
      → Escapes (spec_run (polls batches) (contents q)).0
      → let outs = (spec_run (polls batches) (contents q)).0 in
        (shell_of (event_loop (suc (suc k)) batches f q s) ≡ handle (suc (suc k)) outs s)
        × Leaves
            (shell_of (event_loop (suc (suc k)) batches f q s))
            s.settings
            s.console.con_fg
            s.console.con_bg
  event_loop-Quiet k batches f q s ring v escapes =
      let same =
        event_loop-handle (suc (suc k)) batches f q s
        ∙ ap (λ (r : List (Option Event) × Queue). handle (suc (suc k)) r.0 s)
            (run-spec_run f (polls batches) ring) in
      let (t, runs, v', kept, fg, bg) =
        handle-Quiet k (spec_run (polls batches) (contents q)).0 escapes s v in
      (same, (t, same ∙ runs, v', kept, fg, bg))
