-- ===== src/IrDriver/Dispatch/History.antt =====
-- The commands of the dispatch thread of src/ir_driver.cpp, newest first.
use shirokumakun_matter.Common.{◌<◌, ◌≡◌, arith, List, [], ◌∷◌, length}
use shirokumakun_matter.IrProtocol.{IrPulse}

-- The first list is taken from the second in order; an entry may be skipped or repeated.
pub data Follows : List (List IrPulse) → List (List IrPulse) → Type 0 where
  none_yet : {stored : List (List IrPulse)} → Follows [] stored
  skip :
      {taken stored : List (List IrPulse)} {p : List IrPulse}
      → Follows taken stored
      → Follows taken (p ∷ stored)
  again :
      {taken stored : List (List IrPulse)} {p : List IrPulse}
      → Follows taken (p ∷ stored)
      → Follows (p ∷ taken) (p ∷ stored)

abbrev pub newest : List (List IrPulse) → List IrPulse
newest [] = []
newest (p ∷ ps) = p

pub Follows-newest :
    (x : List IrPulse) (taken stored : List (List IrPulse))
    → x ≡ newest stored
    → 0 < length stored
    → Follows taken stored
    → Follows (x ∷ taken) stored
Follows-newest x taken [] e ne f = absurd (omega arith)
Follows-newest x taken (p ∷ ps) e ne f = rw e (again f)
