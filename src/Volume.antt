-- ===== src/Volume.antt =====
-- `get_volume` of src/helpers.rs: the floating-point code of volumes and amounts. Each caller hands
-- over a `u32` widened to `i64`, so the argument is a number below 2 ^ 32.
use tdxrs.Base.{ℕ, ◌*◌, ◌/◌, ◌%◌, ◌^◌, ltb, ◌==◌, if◌then◌else◌, bit_and}
use tdxrs.Base.Int.{ℤ, ◌-ℤ◌, ◌+ℤ◌, ltb_ℤ, sub_ℕ}
use tdxrs.Floats.{Floats}

module _ (fl : Floats) where
  open fl use {F64, of_int, add, mul, div, two_to, literal}

  -- `2.0_f64.powi(|n|)`, inverted if `n` is negative.
  abbrev power_by_sign : ℤ → F64
  power_by_sign n =
      if ltb_ℤ n (ℤ.pos 0) then div (literal 1 0) (two_to (ℤ.pos 0 -ℤ n)) else two_to n

  unfoldable pub get_volume : ℕ → F64
  unfolding ◌-ℤ◌ ◌+ℤ◌
  get_volume vol =
      let logpoint = vol / 2 ^ 24 in
      let hleax = vol / 2 ^ 16 % 256 in
      let lheax = vol / 2 ^ 8 % 256 in
      let lleax = vol % 256 in
      let dw_ecx : ℤ = sub_ℕ (logpoint * 2) 0x7f in
      let dw_edx : ℤ = sub_ℕ (logpoint * 2) 0x86 in
      let dw_esi : ℤ = sub_ℕ (logpoint * 2) 0x8e in
      let dw_eax : ℤ = sub_ℕ (logpoint * 2) 0x96 in
      let dbl_xmm6 = power_by_sign dw_ecx in
      let dbl_xmm4 =
        if ltb 0x80 hleax
        then add (mul (two_to dw_edx) (literal 128 0))
            (mul (of_int (ℤ.pos (bit_and hleax 0x7f))) (two_to (dw_edx +ℤ ℤ.pos 1)))
        else mul (power_by_sign dw_edx) (of_int (ℤ.pos hleax)) in
      let dbl_xmm3 = mul (two_to dw_esi) (of_int (ℤ.pos lheax)) in
      let dbl_xmm1 = mul (two_to dw_eax) (of_int (ℤ.pos lleax)) in
      let doubled = λ (x : F64). if bit_and hleax 0x80 == 0 then x else mul x (literal 2 0) in
      if vol == 0
      then literal 0 0
      else add (add (add dbl_xmm6 dbl_xmm4) (doubled dbl_xmm3)) (doubled dbl_xmm1)
