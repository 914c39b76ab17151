-- ===== src/IrProtocol/Buffer.antt =====
-- The writes of `ac_encode_pulses` into the caller's array: which entries, and how many.
use mathlib.Core.List.{append_assoc, append-nil}
use mathlib.Core.Path.{fun_ext, ap₂}
use shirokumakun_matter.Common.{
  ℕ, zero, suc, ◌+◌, ◌^◌, ◌≤◌, ◌<◌, ◌≡◌, refl, sym, ap, ◌∙◌, Option, none, some, List, [], ◌∷◌,
  ◌++◌, arith, length, set, drop, length-append,
}
use shirokumakun_matter.IrProtocol.{
  AcState, IrPulse, Cursor, ◌>>=◌, put, put_bits, put_bytes, ac_encode_pulses, encode_command,
  bit_mark, bit_space, wakeup_mark, wakeup_space, header_mark, header_space, trail_mark,
}
use shirokumakun_matter.IrProtocol.Waveform.{
  pulse, bit_pulses, byte_pulses, frame, length-byte_pulses, length-command,
}

-- A run of writes.
emit : List IrPulse → Cursor → Option Cursor
emit [] c = some c
emit (p ∷ ps) c = put p.mark_us p.space_us c >>= emit ps

>>=-assoc :
    (m : Option Cursor) (f g : Cursor → Option Cursor) → (m >>= f >>= g) ≡ (m >>= λ c. f c >>= g)
>>=-assoc none f g = refl
>>=-assoc (some c) f g = refl

emit-append : (ps qs : List IrPulse) (c : Cursor) → emit (ps ++ qs) c ≡ (emit ps c >>= emit qs)
unfolding emit
emit-append [] qs c = refl
emit-append (p ∷ ps) qs c =
    elim (put p.mark_us p.space_us c)
      as (λ m. (m >>= emit (ps ++ qs)) ≡ (m >>= emit ps >>= emit qs)) [
        | none ↦ refl
        | some c' ↦ emit-append ps qs c'
      ]

put_bits-emit :
    (left bit byte : ℕ) (c : Cursor) → put_bits left bit byte c ≡ emit (bit_pulses left bit byte) c
unfolding put_bits emit
put_bits-emit zero bit byte c = refl
put_bits-emit (suc left) bit byte c =
    ap (λ k. put bit_mark (bit_space byte bit) c >>= k)
      (fun_ext (put_bits-emit left (bit + 1) byte))

put_bytes-emit : (bytes : List ℕ) (c : Cursor) → put_bytes bytes c ≡ emit (byte_pulses bytes) c
unfolding put_bytes emit
put_bytes-emit [] c = refl
put_bytes-emit (b ∷ bytes) c =
    ap₂ ◌>>=◌ (put_bits-emit 8 0 b c) (fun_ext (put_bytes-emit bytes))
    ∙ sym (emit-append (bit_pulses 8 0 b) (byte_pulses bytes) c)

>>=-some : (m : Option Cursor) → (m >>= λ c. some c) ≡ m
>>=-some none = refl
>>=-some (some c) = refl

trailer-emit :
    (bytes : List ℕ) (c : Cursor)
    → (put_bytes bytes c >>= put trail_mark 0)
      ≡ emit (byte_pulses bytes ++ pulse trail_mark 0 ∷ []) c
unfolding emit
trailer-emit bytes c =
    ap₂ ◌>>=◌ (put_bytes-emit bytes c) (fun_ext (λ c'. sym (>>=-some (put trail_mark 0 c'))))
    ∙ sym (emit-append (byte_pulses bytes) (pulse trail_mark 0 ∷ []) c)

encode-emit :
    (s : AcState) (buf : List IrPulse)
    → ac_encode_pulses s buf ≡ emit (frame s) (record { pulses = buf; idx = 0 })
unfolding ac_encode_pulses emit frame
encode-emit s buf =
    ap (λ k. put wakeup_mark wakeup_space (record { pulses = buf; idx = 0 }) >>= k)
      (fun_ext λ c.
        ap (λ k. put header_mark header_space c >>= k) (fun_ext (trailer-emit (encode_command s))))

set_end :
    (done rest : List IrPulse) (r p : IrPulse)
    → set (done ++ r ∷ rest) (length done) p ≡ (done ++ p ∷ []) ++ rest
set_end [] rest r p = refl
set_end (d ∷ done) rest r p = ap (◌∷◌ d) (set_end done rest r p)

put_fits :
    (p r : IrPulse) (done rest : List IrPulse)
    → length done + 1 < 2 ^ 16
    → put p.mark_us p.space_us (record { pulses = done ++ r ∷ rest; idx = length done })
      ≡ some (record { pulses = (done ++ p ∷ []) ++ rest; idx = length (done ++ p ∷ []) })
unfolding put
put_fits p r done rest small =
    ground
      (arith, set_end done rest r p, length-append done (r ∷ rest), length-append done (p ∷ []))

-- While the array has room, a run of writes fills the next entries and leaves the rest.
emit_fits :
    (ps done rest : List IrPulse)
    → length ps ≤ length rest
    → length done + length ps < 2 ^ 16
    → emit ps (record { pulses = done ++ rest; idx = length done })
      ≡ some (record { pulses = (done ++ ps) ++ drop (length ps) rest; idx = length (done ++ ps) })
unfolding emit
emit_fits [] done rest fits small = rw append-nil
emit_fits (p ∷ ps) done [] fits small = absurd (omega arith)
emit_fits (p ∷ ps) done (r ∷ rest) fits small =
    rw (put_fits p r done rest (omega arith), ◌>>=◌)
      (rw
        (emit_fits ps (done ++ p ∷ []) rest (omega arith)
          (omega (arith, length-append done (p ∷ []))))
        (rw (append_assoc done (p ∷ []) ps)))

put_full :
    (mark space : ℕ) (done : List IrPulse)
    → put mark space (record { pulses = done ++ []; idx = length done }) ≡ none
unfolding put
put_full mark space done = ground (arith, length-append done [])

-- Where it has not, the run of writes goes past its end.
emit_overflows :
    (ps done rest : List IrPulse)
    → length rest < length ps
    → length done + length ps < 2 ^ 16
    → emit ps (record { pulses = done ++ rest; idx = length done }) ≡ none
unfolding emit
emit_overflows [] done rest short small = absurd (omega arith)
emit_overflows (p ∷ ps) done [] short small = rw (put_full p.mark_us p.space_us done, ◌>>=◌)
emit_overflows (p ∷ ps) done (r ∷ rest) short small =
    rw (put_fits p r done rest (omega arith), ◌>>=◌)
      (emit_overflows ps (done ++ p ∷ []) rest (omega arith)
        (omega (arith, length-append done (p ∷ []))))

pub length-frame : (s : AcState) → length (frame s) ≡ 427
unfolding frame
length-frame s = omega (
  arith,
  length-append (byte_pulses (encode_command s)) (pulse trail_mark 0 ∷ []),
  length-byte_pulses (encode_command s),
  length-command s,
)

-- Into an array of at least 427 pulses, `ac_encode_pulses` writes exactly the frame to its first
-- 427 entries, leaves the others as they were, and returns 427.
pub ac_encode_pulses-frame :
    (s : AcState) (buf : List IrPulse)
    → 427 ≤ length buf
    → ac_encode_pulses s buf ≡ some (record { pulses = frame s ++ drop 427 buf; idx = 427 })
ac_encode_pulses-frame s buf room =
    encode-emit s buf
    ∙ emit_fits (frame s) [] buf (omega (arith, length-frame s)) (omega (arith, length-frame s))
    ∙ rw (length-frame s)

-- Into an array of fewer than 427 pulses, `ac_encode_pulses` writes past the end.
pub ac_encode_pulses_overflow :
    (s : AcState) (buf : List IrPulse) → length buf < 427 → ac_encode_pulses s buf ≡ none
ac_encode_pulses_overflow s buf short =
    encode-emit s buf
    ∙ emit_overflows (frame s) [] buf (omega (arith, length-frame s))
        (omega (arith, length-frame s))
