-- ===== src/ShellCommands/QrPicture.antt =====
-- The picture of a QR code that `cmd_qr` of src/shell_commands.cpp prints, described by its rows: a
-- quiet zone of '#', two modules wide, around the modules, a space for a dark one and '#' for a
-- light one.
use mathlib.Core.Path.{ap₂}
use mathlib.Core.List.{append_assoc}
use shirokumakun_matter.Common.{
  ℕ, zero, suc, ◌+◌, ◌-◌, ◌≤◌, ◌<◌, ◌≡◌, refl, sym, ap, ◌∙◌, Bool, true, false, List, [], ◌∷◌, ◌++◌,
  some, arith, ◌⊎◌, inl, inr, if◌then◌else◌,
}
use shirokumakun_matter.ShellCommands.QrCode.{
  in_code, ink, picture_row, picture, draw, draw-picture,
}

-- A module is two characters wide.
abbrev pub module_chars : Bool → List ℕ
module_chars true = 32 ∷ 32 ∷ []
module_chars false = 35 ∷ 35 ∷ []

-- `n` light modules.
abbrev pub light_chars : ℕ → List ℕ
light_chars zero = []
light_chars (suc n) = module_chars false ++ light_chars n

module _ (size : ℕ) (get_module : ℕ → ℕ → Bool) where
  -- The modules of row `y` from column `x` on.
  abbrev pub row_chars : ℕ → ℕ → ℕ → List ℕ
  row_chars zero x y = []
  row_chars (suc left) x y = module_chars (get_module x y) ++ row_chars left (x + 1) y

  -- A row of the quiet zone, and one of the code; the 0 ends the text.
  abbrev pub quiet_row : List ℕ
  quiet_row = light_chars (size + 4) ++ 0 ∷ []

  abbrev pub code_row : ℕ → List ℕ
  code_row y = light_chars 2 ++ (row_chars size 0 y ++ (light_chars 2 ++ 0 ∷ []))

  abbrev pub code_rows : ℕ → ℕ → List (List ℕ)
  code_rows zero y = []
  code_rows (suc left) y = code_row y ∷ code_rows left (y + 1)

  abbrev pub qr_picture : List (List ℕ)
  qr_picture = quiet_row ∷ quiet_row ∷ (code_rows size 0 ++ quiet_row ∷ quiet_row ∷ [])

  dark_char : Bool → ℕ
  dark_char dark = if dark then 32 else 35

  module_chars-dark_char :
      (dark : Bool) → (cs : List ℕ) → dark_char dark ∷ dark_char dark ∷ cs ≡ module_chars dark ++ cs
  unfolding dark_char
  module_chars-dark_char true cs = refl
  module_chars-dark_char false cs = refl

  ink-inside :
      (x y : ℕ)
      → x < size
      → y < size
      → ink size get_module (y + 2) (x + 2) ≡ dark_char (get_module x y)
  unfolding ink dark_char
  ink-inside x y hx hy =
      let column : x + 2 - 2 ≡ x = omega arith in
      let row : y + 2 - 2 ≡ y = omega arith in
      let across : in_code size get_module (x + 2) ≡ true = ground arith in
      let down : in_code size get_module (y + 2) ≡ true = ground arith in
      rw across (rw down (rw column (rw row refl)))

  ink-beside :
      (x y : ℕ)
      → (in_code size get_module x ≡ false) ⊎ (in_code size get_module y ≡ false)
      → ink size get_module y x ≡ 35
  unfolding ink
  ink-beside x y h = ground arith

  picture_row-quiet :
      (n x y : ℕ)
      → in_code size get_module y ≡ false
      → picture_row size get_module n y x ≡ light_chars n ++ 0 ∷ []
  picture_row-quiet zero x y h = refl
  picture_row-quiet (suc n) x y h =
      rw (ink-beside x y (inr h)) (ap (λ cs. 35 ∷ 35 ∷ cs) (picture_row-quiet n (x + 1) y h))

  -- From column `x` of the code on.
  picture_row-code :
      (left n x y : ℕ)
      → n ≡ left + 2
      → x + left ≡ size
      → y < size
      → picture_row size get_module n (y + 2) (x + 2)
        ≡ row_chars left x y ++ (light_chars 2 ++ 0 ∷ [])
  picture_row-code zero n x y two whole hy =
      let first : ink size get_module (y + 2) (x + 2) ≡ 35 =
        ink-beside (x + 2) (y + 2) (inl (ground arith)) in
      let second : ink size get_module (y + 2) (x + 2 + 1) ≡ 35 =
        ink-beside (x + 2 + 1) (y + 2) (inl (ground arith)) in
      rw two (rw first (rw second refl))
  picture_row-code (suc left) zero x y two whole hy = absurd (omega arith)
  picture_row-code (suc left) (suc n) x y two whole hy =
      let further : x + 2 + 1 ≡ x + 1 + 2 = omega arith in
      rw (ink-inside x y (omega arith) hy) (
        rw further (
          ap (λ cs. dark_char (get_module x y) ∷ dark_char (get_module x y) ∷ cs)
            (picture_row-code left n (x + 1) y (omega arith) (omega arith) hy)
          ∙ module_chars-dark_char (get_module x y)
              (row_chars left (x + 1) y ++ (light_chars 2 ++ 0 ∷ []))
          ∙ sym (
              append_assoc (module_chars (get_module x y)) (row_chars left (x + 1) y)
                (light_chars 2 ++ 0 ∷ []))))

  row-code : (y : ℕ) → y < size → picture_row size get_module (size + 4) (y + 2) 0 ≡ code_row y
  row-code y hy =
      let wide : size + 4 ≡ suc (suc (size + 2)) = omega arith in
      let first : ink size get_module (y + 2) 0 ≡ 35 = ink-beside 0 (y + 2) (inl (ground arith)) in
      let second : ink size get_module (y + 2) 1 ≡ 35 = ink-beside 1 (y + 2) (inl (ground arith)) in
      rw wide (
        rw first (
          rw second (
            ap (λ cs. 35 ∷ 35 ∷ 35 ∷ 35 ∷ cs)
              (picture_row-code size (size + 2) 0 y refl (omega arith) hy))))

  row-quiet :
      (y : ℕ)
      → in_code size get_module y ≡ false
      → picture_row size get_module (size + 4) y 0 ≡ quiet_row
  row-quiet y h = picture_row-quiet (size + 4) 0 y h

  picture-code :
      (left n y : ℕ)
      → n ≡ left + 2
      → y + left ≡ size
      → picture size get_module n (y + 2) ≡ code_rows left y ++ quiet_row ∷ quiet_row ∷ []
  picture-code zero n y two whole =
      let first : in_code size get_module (y + 2) ≡ false = ground arith in
      let second : in_code size get_module (y + 2 + 1) ≡ false = ground arith in
      rw two (ap₂ (λ r s. r ∷ s ∷ []) (row-quiet (y + 2) first) (row-quiet (y + 2 + 1) second))
  picture-code (suc left) zero y two whole = absurd (omega arith)
  picture-code (suc left) (suc n) y two whole =
      let further : y + 2 + 1 ≡ y + 1 + 2 = omega arith in
      ap₂ ◌∷◌ (row-code y (omega arith))
        (rw further (picture-code left n (y + 1) (omega arith) (omega arith)))

  -- For a code of at most 123 modules a side (version 9 has 53), no character is written past the
  -- end of the line, and what is printed is the picture.
  pub draw-qr_picture : size ≤ 123 → draw size get_module ≡ some qr_picture
  draw-qr_picture h =
      let tall : size + 4 ≡ suc (suc (size + 2)) = omega arith in
      draw-picture size get_module h
      ∙ ap some (
          ap (λ n. picture size get_module n 0) tall
          ∙ ap₂ ◌∷◌ (row-quiet 0 (ground arith)) (
              ap₂ ◌∷◌ (row-quiet 1 (ground arith))
                (picture-code size (size + 2) 0 refl (omega arith))))
