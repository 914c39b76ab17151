-- ===== src/IrDriver/Carrier.antt =====
-- What `ir_transmit` of src/ir_driver.cpp puts on the LED, against a receiver that measures how
-- long the carrier is on and off.
use mathlib.Core.List.{append_assoc, append-nil}
use shirokumakun_matter.Common.{
  ℕ, ◌%◌, ◌==◌, zero, suc, ◌+◌, ◌<◌, ◌≡◌, refl, sym, ap, ◌∙◌, Bool, true, false, some, List, [],
  ◌∷◌, ◌++◌, arith, ltb, if◌then◌else◌, length, get_elem?, Bool-cases, inl, inr, length-append,
}
use shirokumakun_matter.IrProtocol.{IrPulse}
use shirokumakun_matter.IrProtocol.Waveform.{pulse}
use shirokumakun_matter.IrDriver.{
  Op, load, wait, Pwm, carrier_on, carrier_off, load_us, ir_countertop, load_duty, transmit_pulse,
  transmit_loop, ir_transmit, ir_driver_init,
}

-- What the LED does while a duty word is loaded.
pub data Light : Type 0 where
  dark carrier steady : Light

-- The output as the comments of the file describe it. Bit 15 clear: high from the start of the
-- period to the compare value, and always high at compare 0. Bit 15 set: high from the compare
-- value to the end of the period, and always low at compare 0. A compare value that the counter
-- does not reach leaves the output as the period begins.
abbrev pub light : ℕ → Light
light duty =
    if ltb duty 0x8000
    then (if duty == 0 then steady else (if ltb duty ir_countertop then carrier else steady))
    else (if duty % 0x8000 == 0
        then dark
        else (if ltb (duty % 0x8000) ir_countertop then carrier else dark))

-- A mark ends when the next one begins; `mark` and `space` are the times measured so far. A
-- receiver on which the LED shines steadily is dazzled and makes nothing of it.
unfoldable pub measure : Bool → ℕ → ℕ → List Op → List IrPulse
measure on mark space [] = if ltb 0 mark then pulse mark space ∷ [] else []
measure true mark space (wait us ∷ ops) = measure true (mark + us) space ops
measure false mark space (wait us ∷ ops) = measure false mark (space + us) ops
measure true mark space (load d ∷ ops) = elim (light d) [
  | dark ↦ measure false mark space ops
  | carrier ↦ measure true mark space ops
  | steady ↦ []
]
measure false mark space (load d ∷ ops) = elim (light d) [
  | dark ↦ measure false mark space ops
  | carrier ↦
      let next = measure true 0 0 ops in if ltb 0 mark then pulse mark space ∷ next else next
  | steady ↦ []
]

abbrev pub pulse_ops : IrPulse → List Op
pulse_ops p =
    load carrier_on
    ∷ wait load_us
    ∷ wait p.mark_us
    ∷ load carrier_off
    ∷ wait load_us
    ∷ (if ltb 0 p.space_us then wait p.space_us ∷ [] else [])

abbrev pub all_ops : List IrPulse → List Op
all_ops [] = []
all_ops (p ∷ ps) = pulse_ops p ++ all_ops ps

-- The operations of one transmission.
abbrev pub airing : List IrPulse → List Op
airing ps = all_ops ps ++ load carrier_off ∷ wait load_us ∷ []

transmit_pulse-ops :
    (p : IrPulse) (w : Pwm)
    → transmit_pulse p w ≡ record { duty_value = carrier_off; ops = w.ops ++ pulse_ops p }
unfolding transmit_pulse
transmit_pulse-ops p w = elim (Bool-cases (ltb 0 p.space_us)) [
  | inl spaced ↦ rw spaced (simp append_assoc)
  | inr short ↦ rw short (simp append_assoc)
]

-- The peripheral after the pulses.
pub after_pulses : List IrPulse → Pwm → Pwm
after_pulses [] w = w
after_pulses (p ∷ ps) w =
    after_pulses ps (record { duty_value = carrier_off; ops = w.ops ++ pulse_ops p })

pub after_pulses-ops : (ps : List IrPulse) (w : Pwm) → (after_pulses ps w).ops ≡ w.ops ++ all_ops ps
unfolding after_pulses
after_pulses-ops [] w = sym (append-nil w.ops)
after_pulses-ops (p ∷ ps) w =
    after_pulses-ops ps (record { duty_value = carrier_off; ops = w.ops ++ pulse_ops p })
    ∙ append_assoc w.ops (pulse_ops p) (all_ops ps)

get_elem?-middle :
    (done rest : List IrPulse) (p : IrPulse) (i : ℕ)
    → i ≡ length done
    → get_elem? (done ++ p ∷ rest) i ≡ some p
get_elem?-middle [] rest p zero e = refl
get_elem?-middle [] rest p (suc i) e = absurd (omega arith)
get_elem?-middle (d ∷ done) rest p zero e = absurd (omega arith)
get_elem?-middle (d ∷ done) rest p (suc i) e = get_elem?-middle done rest p i (omega arith)

pub transmit_loop-after :
    (done todo rest : List IrPulse) (w : Pwm) (i : ℕ)
    → i ≡ length done
    → transmit_loop (length todo) i (done ++ (todo ++ rest)) w ≡ some (after_pulses todo w)
unfolding transmit_loop after_pulses
transmit_loop-after done [] rest w i e = refl
transmit_loop-after done (p ∷ todo) rest w i e =
    rw (get_elem?-middle done (todo ++ rest) p i e, transmit_loop, transmit_pulse-ops p w)
      (rw (append_assoc done (p ∷ []) (todo ++ rest)) at (
        transmit_loop-after (done ++ p ∷ []) todo rest
          (record { duty_value = carrier_off; ops = w.ops ++ pulse_ops p }) (i + 1)
          (omega (arith, length-append done (p ∷ [])))))

-- The pulses on air, after a pulse of `mark` and `space`: a load lengthens each mark and each space,
-- and the last load the last space.
abbrev pub aired_after : ℕ → ℕ → List IrPulse → List IrPulse
aired_after mark space [] = pulse mark (space + load_us) ∷ []
aired_after mark space (p ∷ ps) =
    pulse mark space ∷ aired_after (load_us + p.mark_us) (load_us + p.space_us) ps

-- Each mark and each space is 26 microseconds longer, and the last space 26 more.
abbrev pub aired : List IrPulse → List IrPulse
aired [] = []
aired (p ∷ ps) = aired_after (load_us + p.mark_us) (load_us + p.space_us) ps

-- The wait after a mark, which is left out where the space is 0.
abbrev pause : IrPulse → List Op
pause p = if ltb 0 p.space_us then wait p.space_us ∷ [] else []

measure-pause :
    (p : IrPulse) (mark : ℕ) (ops rest : List Op)
    → measure false mark load_us ((pause p ++ ops) ++ rest)
      ≡ measure false mark (load_us + p.space_us) (ops ++ rest)
unfolding measure
measure-pause p mark ops rest = elim (Bool-cases (ltb 0 p.space_us)) [
  | inl spaced ↦ rw spaced refl
  | inr short ↦ let none_left : p.space_us ≡ 0 = ground arith in rw short (rw none_left refl)
]

measure-aired_after :
    (mark space : ℕ) (ps : List IrPulse)
    → 0 < mark
    → measure false mark space (airing ps) ≡ aired_after mark space ps
unfolding measure
measure-aired_after mark space [] h = ground arith
measure-aired_after mark space (p ∷ ps) h =
    let heard : ltb 0 mark ≡ true = ground arith in
    rw heard (
      ap (λ seen. pulse mark space ∷ seen)
        (measure-pause p (load_us + p.mark_us) (all_ops ps) (load carrier_off ∷ wait load_us ∷ [])
          ∙ measure-aired_after (load_us + p.mark_us) (load_us + p.space_us) ps (omega arith)))

pub measure-airing : (ps : List IrPulse) (space : ℕ) → measure false 0 space (airing ps) ≡ aired ps
unfolding measure
measure-airing [] space = refl
measure-airing (p ∷ ps) space =
    measure-pause p (load_us + p.mark_us) (all_ops ps) (load carrier_off ∷ wait load_us ∷ [])
    ∙ measure-aired_after (load_us + p.mark_us) (load_us + p.space_us) ps (omega arith)

-- One transmission, from any state of the peripheral.
pub ir_transmit-airing :
    (ps rest : List IrPulse) (p : Pwm)
    → ir_transmit (ps ++ rest) (length ps) p
      ≡ some (record { duty_value = carrier_off; ops = p.ops ++ airing ps })
unfolding ir_transmit load_duty
ir_transmit-airing ps rest p =
    rw (transmit_loop-after [] ps rest p 0 refl, ir_transmit)
      (rw (after_pulses-ops ps p)
        (rw (append_assoc p.ops (all_ops ps) (load carrier_off ∷ wait load_us ∷ [])) refl))

-- After `ir_driver_init`, `ir_transmit` of `count` pulses of an array reads only those, and a
-- receiver that measures the carrier sees exactly them, each mark and each space longer by the 26
-- microseconds of a load, and the last space by 26 more; the LED is left dark.
pub ir_transmit-measure :
    (ps rest : List IrPulse)
    → (w : Pwm) × (ir_transmit (ps ++ rest) (length ps) ir_driver_init ≡ some w)
      × (measure false 0 0 w.ops ≡ aired ps)
      × (light w.duty_value ≡ dark)
unfolding measure ir_driver_init
ir_transmit-measure ps rest =
    (_, ir_transmit-airing ps rest ir_driver_init, measure-airing ps (0 + load_us), refl)
