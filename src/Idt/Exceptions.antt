-- ===== src/Idt/Exceptions.antt =====
-- src/cpu/exceptions.c: the handlers of the 32 exceptions, and their gates.
use arc_monark.Base.{
  ℕ, zero, suc, ◌+◌, ◌^◌, ◌≤◌, ◌<◌, ◌≡◌, refl, sym, subst, ◌∙◌, ◌≢◌, inl, inr, Bool, true, false,
  List, [], ◌∷◌, arith, ◌==◌, Bool-cases, length, length-set,
}
use arc_monark.Base.Text.{codes}
use arc_monark.Idt.{IdtEntry, idt_entries, idt_int_gate, gate, idt_set_gate, idt_init}
use arc_monark.Idt.Gate.{IsGate, entry, idt_set_gate-target}

-- What `EXC_NOERR` and `EXC_ERR` make of a vector: the message that it passes to `panic`, and whether
-- the processor has an error code for it.
pub record Handler : Type 0 where
  pub message : List ℕ
  pub has_error : Bool

abbrev exc_noerr : List ℕ → Handler
exc_noerr m = record { message = m; has_error = false }

abbrev exc_err : List ℕ → Handler
exc_err m = record { message = m; has_error = true }

-- the handlers by vector
abbrev pub handlers : List Handler
handlers =
    exc_noerr (codes "#DE Divide Error")
    ∷ exc_noerr (codes "#DB Debug")
    ∷ exc_noerr (codes "NMI")
    ∷ exc_noerr (codes "#BP Breakpoint")
    ∷ exc_noerr (codes "#OF Overflow")
    ∷ exc_noerr (codes "#BR BOUND Range Exceeded")
    ∷ exc_noerr (codes "#UD Invalid Opcode")
    ∷ exc_noerr (codes "#NM Device Not Available")
    ∷ exc_err (codes "#DF Double Fault")
    ∷ exc_noerr (codes "Coprocessor Segment Overrun")
    ∷ exc_err (codes "#TS Invalid TSS")
    ∷ exc_err (codes "#NP Segment Not Present")
    ∷ exc_err (codes "#SS Stack-Segment Fault")
    ∷ exc_err (codes "#GP General Protection Fault")
    ∷ exc_err (codes "#PF Page Fault")
    ∷ exc_noerr (codes "Reserved (15)")
    ∷ exc_noerr (codes "#MF x87 FPU Error")
    ∷ exc_err (codes "#AC Alignment Check")
    ∷ exc_noerr (codes "#MC Machine Check")
    ∷ exc_noerr (codes "#XM SIMD FP Exception")
    ∷ exc_noerr (codes "#VE Virtualization")
    ∷ exc_err (codes "#CP Control Protection")
    ∷ exc_noerr (codes "Reserved (22)")
    ∷ exc_noerr (codes "Reserved (23)")
    ∷ exc_noerr (codes "Reserved (24)")
    ∷ exc_noerr (codes "Reserved (25)")
    ∷ exc_noerr (codes "Reserved (26)")
    ∷ exc_noerr (codes "Reserved (27)")
    ∷ exc_noerr (codes "#HV Hypervisor Injection")
    ∷ exc_err (codes "#VC VMM Communication")
    ∷ exc_err (codes "#SD Security Exception")
    ∷ exc_noerr (codes "Reserved (31)")
    ∷ []

-- `for (i = ...; i < 32; i++) idt_set_gate(i, h[i], IDT_INT_GATE);`, with the rounds that are left
-- and the addresses of the handlers
unfoldable pub install_loop : ℕ → ℕ → (ℕ → ℕ) → List IdtEntry → List IdtEntry
install_loop zero i h idt = idt
install_loop (suc k) i h idt = install_loop k (i + 1) h (idt_set_gate i (h i) idt_int_gate idt)

pub exceptions_install : (ℕ → ℕ) → List IdtEntry → List IdtEntry
exceptions_install h idt = install_loop 32 0 h idt

-- The gate at the vector is an interrupt gate to the handler: of type 0x8E, in the kernel's segment.
abbrev pub LeadsTo : List IdtEntry → ℕ → ℕ → Type 0
LeadsTo idt v handler = IsGate (entry idt v) handler 0x8E

length-idt_set_gate :
    (v handler flags : ℕ) (idt : List IdtEntry)
    → length (idt_set_gate v handler flags idt) ≡ length idt
unfolding idt_set_gate
length-idt_set_gate v handler flags idt = length-set idt v (gate handler flags)

install_loop-LeadsTo :
    (k i : ℕ) (h : ℕ → ℕ) (idt : List IdtEntry)
    → ((v : ℕ) → h v < 2 ^ 64)
    → length idt ≡ idt_entries
    → i + k ≤ 256
    → (length (install_loop k i h idt) ≡ idt_entries)
      × ((v : ℕ) → i ≤ v → v < i + k → LeadsTo (install_loop k i h idt) v (h v))
      × ((v : ℕ) → v < i → entry (install_loop k i h idt) v ≡ entry idt v)
unfolding install_loop
install_loop-LeadsTo zero i h idt words size fits =
    (size, (λ v le lt. absurd (omega arith)), (λ v lt. refl))
install_loop-LeadsTo (suc k) i h idt words size fits =
    let next : List IdtEntry = idt_set_gate i (h i) idt_int_gate idt in
    let (to, others) = idt_set_gate-target idt i (h i) idt_int_gate size (omega arith) (words i) in
    let (size', later, before) =
      install_loop-LeadsTo k (i + 1) h next words
        (length-idt_set_gate i (h i) idt_int_gate idt ∙ size) (omega arith) in
    (
      size',
      (λ v le lt. elim (Bool-cases (i == v)) [
        | inl same ↦
            let e : i ≡ v = ground arith in
            subst (λ v. LeadsTo (install_loop k (i + 1) h next) v (h v)) e
              (subst (λ x. IsGate x (h i) 0x8E) (sym (before i (omega arith))) to)
        | inr other ↦ later v (ground arith) (omega arith)
      ]),
      (λ v lt. before v (omega arith) ∙ others v (λ e. absurd (omega arith))),
    )

-- Where the table has its 256 entries and addresses are 64-bit numbers: after `idt_init` with the
-- gates of `exceptions_install`, every exception but the page fault leads to its own handler, and the
-- page fault to the handler that `idt_init` sets afterwards, not to the one that panics: each by an
-- interrupt gate in the kernel's code segment.
pub idt_init-LeadsTo :
    (h : ℕ → ℕ) (page_fault : ℕ) (idt : List IdtEntry)
    → ((v : ℕ) → h v < 2 ^ 64)
    → page_fault < 2 ^ 64
    → length idt ≡ idt_entries
    → LeadsTo (idt_init (exceptions_install h) page_fault idt) 14 page_fault
      × ((v : ℕ)
          → v < 32
          → v ≢ 14
          → LeadsTo (idt_init (exceptions_install h) page_fault idt) v (h v))
unfolding idt_init exceptions_install
idt_init-LeadsTo h page_fault idt words word size =
    let (size', leads, before) = install_loop-LeadsTo 32 0 h idt words size (omega arith) in
    let done : List IdtEntry = install_loop 32 0 h idt in
    let (to, others) =
      idt_set_gate-target done 14 page_fault idt_int_gate size' (omega arith) word in
    (
      to,
      λ v lt ne.
          subst (λ x. IsGate x (h v) 0x8E) (sym (others v (λ e. ne (sym e))))
            (leads v (omega arith) lt),
    )
