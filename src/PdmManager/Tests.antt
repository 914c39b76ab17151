-- ===== src/PdmManager/Tests.antt =====
-- The theorems on the microphone with whole numbers in place of floating-point ones, and a spectrum
-- that is the signal itself.
use shirokumakun_matter.Common.{
  ℕ, ◌+◌, ◌*◌, ◌/◌, ◌≡◌, refl, Bool, true, false, Option, none, some, List, [], ◌∷◌, ◌++◌, arith,
  ltb, replicate, length-append,
}
use shirokumakun_matter.Common.Int.{ℤ, pos, negsuc, pos_part}
use shirokumakun_matter.PdmManager.Unordered.{IsUnordered, collect_ack-IsUnordered}
use shirokumakun_matter.PdmManager.Verbose.{HasSpectrum, IsStreaming, collect_ack-IsStreaming}
use shirokumakun_matter.PdmManager.{
  Floats, detect, Pdm, start_listen, event, work, collect_ack, happen, bin_power, is_training,
  noise_loop, noise_sum, detection_of, windowed, spectrum,
}
use shirokumakun_matter.PdmManager.Detector.{power, sum_powers, training_bins, detect_lem}
use shirokumakun_matter.PdmManager.Capture.{collect_ack_stale, collect_ack_heard}

abbrev whole : Floats
whole = record {
  F = ℕ;
  zero_f = 0;
  of_ℤ = pos_part;
  add = λ a b. a + b;
  mul = λ a b. a * b;
  div = λ a b. a / b;
  gt = λ a b. ltb b a;
  fft = λ xs. xs;
  hann_window = λ i. 1;
}

-- A tone in bin 127.
abbrev tone : List ℤ
tone = replicate 254 (pos 0) ++ pos 9 ∷ replicate 769 (pos 0)

abbrev idle : Pdm whole
idle = record {
  detect_threshold = 25;
  pdm_buf = [] ∷ [] ∷ [];
  buf_ready_idx = 0;
  buf_available = true;
  next = 0;
  work_queued = true;
  ack_sem = 1;
  capture_active = false;
  verbose = false;
  verbose_own = false;
  capturing = false;
}

tone_found : detect whole 25 (windowed whole 0 tone) ≡ some (record { cut = 81; cfar_thresh = 0 })
unfolding detect bin_power is_training noise_loop noise_sum detection_of windowed
tone_found = refl

detect_lem_example :
    detect whole 25 (replicate 280 1)
    ≡ some (record {
      cut = power whole (replicate 280 1) 127;
      cfar_thresh = sum_powers whole (replicate 280 1) (training_bins whole) 0 / 20 * 25;
    })
detect_lem_example = detect_lem whole 25 (replicate 280 1) (omega arith)

abbrev closed : Pdm whole
closed = record idle { buf_available = false; work_queued = false; ack_sem = 0 }

refused_window :
    collect_ack whole (work ∷ []) (pos 0) (start_listen whole (negsuc 10) idle)
    ≡ some (closed, false)
unfolding collect_ack start_listen happen
refused_window = refl

stale_window :
    collect_ack whole (work ∷ []) (pos 0) (start_listen whole (pos 0) idle) ≡ some (closed, false)
unfolding collect_ack start_listen happen
stale_window = refl

collect_ack_stale_example : ◌≡◌ {A = Bool} false false
collect_ack_stale_example =
    collect_ack_stale whole (work ∷ []) (pos 0) (pos 0) idle (tt, tt) stale_window

collect_ack_heard_example :
    (p' : Pdm whole) × (collect_ack whole
        (event true (some (1, tone)) ∷ work ∷ [])
        (pos 0)
        (start_listen whole (pos 0) idle)
      ≡ some (p', true))
collect_ack_heard_example =
    collect_ack_heard whole [] (pos 0) (pos 0) idle true 1 tone
      (record { cut = 81; cfar_thresh = 0 }) refl (omega arith) refl tone_found refl

-- An FFT that gives at least 280 values.
abbrev padded : Floats
padded = record whole { fft = λ xs. xs ++ replicate 280 0 }

padded-HasSpectrum : HasSpectrum padded
padded-HasSpectrum = record { ample = λ xs. omega (arith, length-append xs (replicate 280 0)) }

abbrev streaming : Pdm padded
streaming = record {
  detect_threshold = 25;
  pdm_buf = [] ∷ [] ∷ [];
  buf_ready_idx = 0;
  buf_available = false;
  next = 0;
  work_queued = false;
  ack_sem = 0;
  capture_active = false;
  verbose = true;
  verbose_own = true;
  capturing = true;
}

collect_ack-IsStreaming_example :
    (p' : Pdm padded) × (acked : Bool) × (collect_ack padded
        (event true (some (1, tone)) ∷ work ∷ [])
        (pos 0)
        (start_listen padded (pos 0) streaming)
      ≡ some (p', acked))
    × IsStreaming padded p'
    × (p'.capturing ≡ false)
collect_ack-IsStreaming_example =
    collect_ack-IsStreaming padded (event true (some (1, tone)) ∷ work ∷ []) (pos 0) (pos 0)
      streaming padded-HasSpectrum (tt, (tt, tt)) (record { verbose = refl; verbose_own = refl })
      refl

-- Numbers with one value, `none`, that is not a number.
abbrev mul_partial : Option ℕ → Option ℕ → Option ℕ
mul_partial a none = none
mul_partial none (some b) = none
mul_partial (some a) (some b) = some (a * b)

abbrev gt_partial : Option ℕ → Option ℕ → Bool
gt_partial a none = false
gt_partial none (some b) = false
gt_partial (some a) (some b) = ltb b a

abbrev partial : Floats
partial = record {
  F = Option ℕ;
  zero_f = some 0;
  of_ℤ = λ z. some (pos_part z);
  add = λ a b. a;
  mul = mul_partial;
  div = λ a b. a;
  gt = gt_partial;
  fft = λ xs. xs ++ replicate 280 (some 1);
  hann_window = λ i. some 1;
}

not_a_number-IsUnordered : IsUnordered partial none
not_a_number-IsUnordered = record { never = λ power noise. refl }

abbrev unordered : Pdm partial
unordered = record {
  detect_threshold = none;
  pdm_buf = [] ∷ [] ∷ [];
  buf_ready_idx = 0;
  buf_available = false;
  next = 0;
  work_queued = false;
  ack_sem = 0;
  capture_active = false;
  verbose = false;
  verbose_own = false;
  capturing = false;
}

unordered_window :
    (p' : Pdm partial) × (collect_ack partial
        (event true (some (0, [])) ∷ work ∷ [])
        (pos 0)
        (start_listen partial (pos 0) unordered)
      ≡ some (p', false))
unfolding collect_ack start_listen happen detect bin_power is_training noise_loop noise_sum
    detection_of windowed spectrum
unordered_window = (_, refl)

collect_ack-IsUnordered_example : ◌≡◌ {A = Bool} false false
collect_ack-IsUnordered_example =
    collect_ack-IsUnordered partial (event true (some (0, [])) ∷ work ∷ []) (pos 0) (pos 0)
      unordered not_a_number-IsUnordered (tt, (tt, tt)) unordered_window.1
