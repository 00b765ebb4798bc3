-- ===== src/Pic/Tests.antt =====
-- The masks on concrete bytes.
use arc_monark.Pic.{Masks}

abbrev all_masked : Masks
all_masked = record { pic1_data = 0xFF; pic2_data = 0xFF }
