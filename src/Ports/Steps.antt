-- ===== src/Ports/Steps.antt =====
-- What the steps of `mouse_init` in src/drivers/mouse.c send, whatever the devices answer.
use arc_monark.Base.{
  ℕ, zero, suc, ◌+◌, ◌-◌, ◌*◌, ◌%◌, ◌^◌, ◌<◌, bit_and, ◌≡◌, refl, ap, ◌∙◌, inl, inr, true, some,
  ◌∷◌, arith, ltb, leb, ◌==◌, if◌then◌else◌, Bool-cases,
}
use arc_monark.Pmm.{clear_bit}
use arc_monark.Ports.{
  Io, outb, inb, irq_clear_mask, pic1_data, pic2_data, ps2_data, ps2_status, drain, wait_write,
  wait_read, wait_rounds, send, mouse_cmd, mouse_read, with_mouse, enable_mouse,
}

wait_write_sends : (k : ℕ) (io : Io) → (wait_write k io).writes ≡ io.writes
unfolding wait_write inb
wait_write_sends zero io = refl
wait_write_sends (suc k) io =
    elim (Bool-cases (bit_and (io.answers ps2_status io.reads % 2 ^ 8) 0x02 == 0)) [
      | inl e ↦ rw (e, wait_write) refl
      | inr e ↦ rw (e, wait_write) (wait_write_sends k (record io { reads = io.reads + 1 }))
    ]

wait_read_sends : (k : ℕ) (io : Io) → (wait_read k io).writes ≡ io.writes
unfolding wait_read inb
wait_read_sends zero io = refl
wait_read_sends (suc k) io =
    elim (Bool-cases (bit_and (io.answers ps2_status io.reads % 2 ^ 8) 0x01 == 0)) [
      | inl e ↦ rw (e, wait_read) (wait_read_sends k (record io { reads = io.reads + 1 }))
      | inr e ↦ rw (e, wait_read) refl
    ]

-- `drain` ends at the first status without the bit, and sends nothing.
pub drain_sends :
    (k j : ℕ) (io : Io)
    → j < k
    → bit_and (io.answers ps2_status (io.reads + 2 * j) % 2 ^ 8) 1 ≡ 0
    → (io' : Io) × (drain k io ≡ some io') × (io'.writes ≡ io.writes) × (io'.answers ≡ io.answers)
unfolding drain inb
drain_sends zero j io lt empty = absurd (omega arith)
drain_sends (suc k) zero io lt empty =
    let now : (bit_and (io.answers ps2_status io.reads % 2 ^ 8) 1 == 0) ≡ true =
      ap (λ n. bit_and (io.answers ps2_status n % 2 ^ 8) 1 == 0) {x = io.reads}
        {y = io.reads + 2 * 0} (omega arith)
      ∙ ap (λ n. n == 0) empty in
    (record io { reads = io.reads + 1 }, rw (now, drain) refl, refl, refl)
drain_sends (suc k) (suc j) io lt empty =
    elim (Bool-cases (bit_and (io.answers ps2_status io.reads % 2 ^ 8) 1 == 0)) [
      | inl e ↦ (record io { reads = io.reads + 1 }, rw (e, drain) refl, refl, refl)
      | inr e ↦
          let two : io.reads + 1 + 1 + 2 * j ≡ io.reads + 2 * suc j = omega arith in
          let (io', runs, same, kept) =
            drain_sends k j (record io { reads = io.reads + 1 + 1 }) (omega arith)
              (ap (λ n. bit_and (io.answers ps2_status n % 2 ^ 8) 1) two ∙ empty) in
          (io', rw (e, drain) runs, same, kept)
    ]

send_sends : (port val : ℕ) (io : Io) → (send port val io).writes ≡ (port, val) ∷ io.writes
unfolding send outb
send_sends port val io = ap (λ w. (port, val) ∷ w) (wait_write_sends wait_rounds io)

mouse_read_sends : (io : Io) → (mouse_read io).1.writes ≡ io.writes
unfolding mouse_read inb
mouse_read_sends io = wait_read_sends wait_rounds io

mouse_cmd_sends :
    (cmd : ℕ) (io : Io)
    → (mouse_cmd cmd io).writes ≡ (ps2_data, cmd) ∷ (ps2_status, 0xD4) ∷ io.writes
unfolding mouse_cmd
mouse_cmd_sends cmd io =
    send_sends ps2_data cmd (send ps2_status 0xD4 io)
    ∙ ap (λ w. (ps2_data, cmd) ∷ w) (send_sends ps2_status 0xD4 io)

mouse_read_byte : (io : Io) → (mouse_read io).0 < 256
unfolding mouse_read inb
mouse_read_byte io = omega arith

-- None of them changes what the devices will answer.
wait_write_answers : (k : ℕ) (io : Io) → (wait_write k io).answers ≡ io.answers
unfolding wait_write inb
wait_write_answers zero io = refl
wait_write_answers (suc k) io =
    elim (Bool-cases (bit_and (io.answers ps2_status io.reads % 2 ^ 8) 0x02 == 0)) [
      | inl e ↦ rw (e, wait_write) refl
      | inr e ↦ rw (e, wait_write) (wait_write_answers k (record io { reads = io.reads + 1 }))
    ]

wait_read_answers : (k : ℕ) (io : Io) → (wait_read k io).answers ≡ io.answers
unfolding wait_read inb
wait_read_answers zero io = refl
wait_read_answers (suc k) io =
    elim (Bool-cases (bit_and (io.answers ps2_status io.reads % 2 ^ 8) 0x01 == 0)) [
      | inl e ↦ rw (e, wait_read) (wait_read_answers k (record io { reads = io.reads + 1 }))
      | inr e ↦ rw (e, wait_read) refl
    ]

send_answers : (port val : ℕ) (io : Io) → (send port val io).answers ≡ io.answers
unfolding send outb
send_answers port val io = wait_write_answers wait_rounds io

mouse_read_answers : (io : Io) → (mouse_read io).1.answers ≡ io.answers
unfolding mouse_read inb
mouse_read_answers io = wait_read_answers wait_rounds io

mouse_cmd_answers : (cmd : ℕ) (io : Io) → (mouse_cmd cmd io).answers ≡ io.answers
unfolding mouse_cmd
mouse_cmd_answers cmd io =
    send_answers ps2_data cmd (send ps2_status 0xD4 io) ∙ send_answers ps2_status 0xD4 io

-- a byte that the devices answer at some port
abbrev pub Answer : Io → ℕ → ℕ → Type 0
Answer io port byte = (n : ℕ) × (byte ≡ io.answers port n % 2 ^ 8)

mouse_read-Answer : (io : Io) → Answer io ps2_data (mouse_read io).0
unfolding mouse_read inb
mouse_read-Answer io = (
  (wait_read wait_rounds io).reads,
  ap (λ f. f ps2_data (wait_read wait_rounds io).reads % 2 ^ 8) (wait_read_answers wait_rounds io),
)

pub Answer-carried :
    (io io' : Io) (port byte : ℕ)
    → io'.answers ≡ io.answers
    → Answer io' port byte
    → Answer io port byte
Answer-carried io io' port byte same (n, e) = (n, e ∙ ap (λ f. f port n % 2 ^ 8) same)

pub irq_clear_mask_sends :
    (irq : ℕ) (io : Io)
    → (mask : ℕ) × Answer io (if ltb irq 8 then pic1_data else pic2_data) mask
      × ((irq_clear_mask irq io).answers ≡ io.answers)
      × ((irq_clear_mask irq io).writes
          ≡ (
            if ltb irq 8 then pic1_data else pic2_data,
            clear_bit mask (if leb 8 irq then irq - 8 else irq),
          )
            ∷ io.writes)
unfolding irq_clear_mask outb inb
irq_clear_mask_sends irq io = (
  io.answers (if ltb irq 8 then pic1_data else pic2_data) io.reads % 2 ^ 8,
  (io.reads, refl),
  refl,
  refl,
)

-- what `mouse_init` sends before the masks
pub enable_mouse_sends :
    (io : Io)
    → (status : ℕ) × (status < 256)
      × Answer io ps2_data status
      × ((enable_mouse io).answers ≡ io.answers)
      × ((enable_mouse io).writes
          ≡ (ps2_data, 0xF4)
            ∷ (ps2_status, 0xD4)
            ∷ (ps2_data, 0xF6)
            ∷ (ps2_status, 0xD4)
            ∷ (ps2_data, with_mouse status)
            ∷ (ps2_status, 0x60)
            ∷ (ps2_status, 0x20)
            ∷ (ps2_status, 0xA8)
            ∷ io.writes)
unfolding enable_mouse
enable_mouse_sends io =
    let asked : Io = send ps2_status 0x20 (send ps2_status 0xA8 io) in
    let asked_answers : asked.answers ≡ io.answers =
      send_answers ps2_status 0x20 (send ps2_status 0xA8 io) ∙ send_answers ps2_status 0xA8 io in
    let (status, io1) = mouse_read asked in
    let io2 : Io = send ps2_data (with_mouse status) (send ps2_status 0x60 io1) in
    let (ack, io3) = mouse_read (mouse_cmd 0xF6 io2) in
    (
      status,
      mouse_read_byte asked,
      Answer-carried io asked ps2_data status asked_answers (mouse_read-Answer asked),
      mouse_read_answers (mouse_cmd 0xF4 io3)
          ∙ (mouse_cmd_answers 0xF4 io3
              ∙ (mouse_read_answers (mouse_cmd 0xF6 io2)
                  ∙ (mouse_cmd_answers 0xF6 io2
                      ∙ (send_answers ps2_data (with_mouse status) (send ps2_status 0x60 io1)
                          ∙ (send_answers ps2_status 0x60 io1
                              ∙ (mouse_read_answers asked ∙ asked_answers)))))),
      mouse_read_sends (mouse_cmd 0xF4 io3)
          ∙ (mouse_cmd_sends 0xF4 io3
              ∙ ap (λ w. (ps2_data, 0xF4) ∷ (ps2_status, 0xD4) ∷ w)
                  (mouse_read_sends (mouse_cmd 0xF6 io2)
                    ∙ (mouse_cmd_sends 0xF6 io2
                        ∙ ap (λ w. (ps2_data, 0xF6) ∷ (ps2_status, 0xD4) ∷ w)
                            (send_sends ps2_data (with_mouse status) (send ps2_status 0x60 io1)
                              ∙ ap (λ w. (ps2_data, with_mouse status) ∷ w)
                                  (send_sends ps2_status 0x60 io1
                                    ∙ ap (λ w. (ps2_status, 0x60) ∷ w)
                                        (mouse_read_sends asked
                                          ∙ (send_sends ps2_status 0x20 (send ps2_status 0xA8 io)
                                              ∙ ap (λ w. (ps2_status, 0x20) ∷ w)
                                                  (send_sends ps2_status 0xA8 io)))))))),
    )
