-- ===== src/ShellCommands/QrCode.antt =====
-- The drawing of the QR code by `cmd_qr` of src/shell_commands.cpp. The generator's answers, the
-- size and the modules, are arguments.
use shirokumakun_matter.Common.{
  ℕ, zero, suc, ◌+◌, ◌*◌, ◌-◌, ◌≤◌, ◌<◌, ◌≡◌, refl, ap, ◌∙◌, Bool, ◌&&◌, List, [], ◌∷◌, ◌++◌,
  Option, none, some, if◌then◌else◌, ltb, leb, length, arith, length-append,
}
use mathlib.Core.List.{append_assoc}

abbrev line_size : ℕ
line_size = 256

abbrev quiet : ℕ
quiet = 2

-- `line[pos++] = c`, with what is written so far in place of `pos`; `none` is past the end.
unfoldable pub put_char : ℕ → List ℕ → Option (List ℕ)
put_char c line = if ltb (length line) line_size then some (line ++ c ∷ []) else none

module _ (size : ℕ) (get_module : ℕ → ℕ → Bool) where
  -- The loops run from -2; here both coordinates are counted from 0, so 2 stands for 0.
  abbrev pub in_code : ℕ → Bool
  in_code i = leb quiet i && ltb (i - quiet) size

  -- 32 is the space and 35 is '#'.
  unfoldable pub ink : ℕ → ℕ → ℕ
  ink y x = if in_code x && in_code y && get_module (x - quiet) (y - quiet) then 32 else 35

  -- The inner loop with `left` rounds left, and the terminating 0 after it.
  unfoldable pub draw_line : ℕ → ℕ → ℕ → List ℕ → Option (List ℕ)
  unfolding put_char ink
  draw_line zero y x line = put_char 0 line
  draw_line (suc left) y x line = elim (put_char (ink y x) line) [
    | none ↦ none
    | some line₁ ↦ elim (put_char (ink y x) line₁) [
      | none ↦ none
      | some line₂ ↦ draw_line left y (x + 1) line₂
    ]
  ]

  -- The outer loop with `left` rounds left: the lines printed.
  unfoldable pub draw_lines : ℕ → ℕ → Option (List (List ℕ))
  unfolding draw_line
  draw_lines zero y = some []
  draw_lines (suc left) y = elim (draw_line (size + 2 * quiet) y 0 []) [
    | none ↦ none
    | some line ↦ elim (draw_lines left (y + 1)) [ none ↦ none | some lines ↦ some (line ∷ lines) ]
  ]

  unfoldable pub draw : Option (List (List ℕ))
  unfolding draw_lines
  draw = draw_lines (size + 2 * quiet) 0

  -- The picture: the character of each module twice, and a 0 at the end of each row.
  abbrev pub picture_row : ℕ → ℕ → ℕ → List ℕ
  picture_row zero y x = 0 ∷ []
  picture_row (suc left) y x = ink y x ∷ ink y x ∷ picture_row left y (x + 1)

  abbrev pub picture : ℕ → ℕ → List (List ℕ)
  picture zero y = []
  picture (suc left) y = picture_row (size + 2 * quiet) y 0 ∷ picture left (y + 1)

  put_char-fits :
      (c : ℕ) (line : List ℕ) → length line < 256 → put_char c line ≡ some (line ++ c ∷ [])
  unfolding put_char
  put_char-fits c line h = ground arith

  length-snoc : (c : ℕ) (line : List ℕ) → length (line ++ c ∷ []) ≡ length line + 1
  length-snoc c line = length-append line (c ∷ [])

  draw_line-fits :
      (left y x : ℕ) (line : List ℕ)
      → length line + 2 * left + 1 ≤ 256
      → draw_line left y x line ≡ some (line ++ picture_row left y x)
  unfolding draw_line
  draw_line-fits zero y x line h = put_char-fits 0 line (omega arith)
  draw_line-fits (suc left) y x line h =
      let c = ink y x in
      let second = put_char-fits c (line ++ c ∷ []) (omega (arith, h, length-snoc c line)) in
      let rest =
        draw_line-fits left y (x + 1) ((line ++ c ∷ []) ++ c ∷ [])
          (omega (arith, h, length-snoc c line, length-snoc c (line ++ c ∷ []))) in
      rw (put_char-fits c line (omega arith), draw_line)
        (rw (second, rest)
          (ap some (append_assoc (line ++ c ∷ []) (c ∷ []) _ ∙ append_assoc line (c ∷ []) _)))

  draw_lines-fits : (left y : ℕ) → size ≤ 123 → draw_lines left y ≡ some (picture left y)
  unfolding draw_lines
  draw_lines-fits zero y h = refl
  draw_lines-fits (suc left) y h =
      rw
        (
          draw_line-fits (size + 4) y 0 [] (omega (arith, h)),
          draw_lines-fits left (y + 1) h,
          draw_lines,
        )
        refl

  -- For a code of at most 123 modules a side (version 9 has 53), no character is written past the
  -- end of the line, and what is printed is one line for each row of modules and for the two rows
  -- above and below, with the character of each module twice, from two columns before the code to
  -- two after it.
  pub draw-picture : size ≤ 123 → draw ≡ some (picture (size + 4) 0)
  unfolding draw
  draw-picture h = draw_lines-fits (size + 4) 0 h
