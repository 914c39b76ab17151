-- ===== src/IrDriver/Dispatch/Copy.antt =====
-- The `memcpy` of pulses in src/ir_driver.cpp.
use shirokumakun_matter.Common.{
  ℕ, zero, suc, ◌≤◌, ◌≡◌, refl, sym, arith, List, [], ◌∷◌, length, take, drop, take_whole,
  length-append, length-drop,
}
use shirokumakun_matter.IrProtocol.{IrPulse}
use shirokumakun_matter.IrDriver.Dispatch.{memcpy}

length-take_fits : (n : ℕ) (from : List IrPulse) → n ≤ length from → length (take n from) ≡ n
length-take_fits zero from h = refl
length-take_fits (suc n) [] h = absurd (omega arith)
length-take_fits (suc n) (x ∷ from) h = omega (arith, length-take_fits n from (omega arith))

pub take-memcpy :
    (n : ℕ) (from to : List IrPulse) → n ≤ length from → take n (memcpy n from to) ≡ take n from
take-memcpy n from to h = take_whole (take n from) (drop n to) n (sym (length-take_fits n from h))

pub length-memcpy :
    (n : ℕ) (from to : List IrPulse)
    → n ≤ length from
    → n ≤ length to
    → length (memcpy n from to) ≡ length to
length-memcpy n from to h k =
    omega
      (arith, length-append (take n from) (drop n to), length-take_fits n from h, length-drop n to)
