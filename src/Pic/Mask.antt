-- ===== src/Pic/Mask.antt =====
-- The masks of src/cpu/pic.c as sets of interrupt lines.
use arc_monark.Base.{ℕ, ◌-◌, ◌<◌, ◌≡◌, Bool, not, ◌&&◌, ◌||◌, arith, ltb, ◌==◌, if◌then◌else◌}
use arc_monark.Pmm.{test_bit}
use arc_monark.Pmm.Bitmap.{test_bit-set_bit, test_bit-clear_bit}
use arc_monark.Pic.{Masks, irq_set_mask, irq_clear_mask}

-- is the line masked?
abbrev pub masked : Masks → ℕ → Bool
masked m irq = if ltb irq 8 then test_bit m.pic1_data irq else test_bit m.pic2_data (irq - 8)

abbrev pub AreBytes : Masks → Type 0
AreBytes m = (m.pic1_data < 256) × (m.pic2_data < 256)

module _ (m : Masks) (bytes : AreBytes m) (i j : ℕ) (hi : i < 16) (hj : j < 16) where
  -- Masking one of the 16 lines masks that line and no other.
  pub masked-irq_set_mask : masked (irq_set_mask i m) j ≡ ((i == j) || masked m j)
  unfolding irq_set_mask
  masked-irq_set_mask = ground (
    arith,
    test_bit-set_bit m.pic1_data i j bytes.0,
    test_bit-set_bit m.pic2_data (i - 8) (j - 8) bytes.1,
  )

  -- Unmasking one of the 16 lines unmasks that line and no other.
  pub masked-irq_clear_mask : masked (irq_clear_mask i m) j ≡ (not (i == j) && masked m j)
  unfolding irq_clear_mask
  masked-irq_clear_mask = ground (
    arith,
    test_bit-clear_bit m.pic1_data i j bytes.0,
    test_bit-clear_bit m.pic2_data (i - 8) (j - 8) bytes.1,
  )
