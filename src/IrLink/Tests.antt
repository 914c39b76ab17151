-- ===== src/IrLink/Tests.antt =====
-- The theorems on sending at concrete pulses and windows, with whole numbers in place of
-- floating-point ones and a spectrum that is the signal itself.
use shirokumakun_matter.Common.{
  ℕ, zero, suc, ◌+◌, ◌*◌, ◌/◌, ◌≤◌, ◌<◌, ◌≡◌, refl, inl, Bool, true, false, some, List, [], ◌∷◌,
  ◌++◌, arith, ltb, replicate, length-append,
}
use shirokumakun_matter.Common.Int.{ℤ, pos, negsuc, pos_part}
use shirokumakun_matter.IrProtocol.{IrPulse}
use shirokumakun_matter.IrProtocol.Waveform.{pulse}
use shirokumakun_matter.IrDriver.{ir_driver_init}
use shirokumakun_matter.PdmManager.{
  Floats, Pdm, event, work, detect, bin_power, is_training, noise_loop, noise_sum, detection_of,
  windowed,
}
use shirokumakun_matter.PdmManager.Verbose.{HasSpectrum}
use shirokumakun_matter.PdmManager.Tuned.{IsTuned}
use shirokumakun_matter.IrLink.{Window, Devices, send_command}
use shirokumakun_matter.IrLink.Sent.{powered, IsSent, send_command-IsSent}
use shirokumakun_matter.IrLink.Windows.{IsSilent, IsLoud, IsSteady}
use shirokumakun_matter.IrLink.Heard.{send_command_silent, send_command_loud}

abbrev padded : Floats
padded = record {
  F = ℕ;
  zero_f = 0;
  of_ℤ = pos_part;
  add = λ a b. a + b;
  mul = λ a b. a * b;
  div = λ a b. a / b;
  gt = λ a b. ltb b a;
  fft = λ xs. xs ++ replicate 280 0;
  hann_window = λ i. 1;
}

padded-HasSpectrum : HasSpectrum padded
padded-HasSpectrum = record { ample = λ xs. omega (arith, length-append xs (replicate 280 0)) }

-- A tone in bin 127.
abbrev tone : List ℤ
tone = replicate 254 (pos 0) ++ pos 9 ∷ replicate 769 (pos 0)

abbrev idle : Pdm padded
idle = record {
  detect_threshold = 25;
  pdm_buf = [] ∷ [] ∷ [];
  buf_ready_idx = 0;
  buf_available = true;
  next = 0;
  work_queued = true;
  ack_sem = 1;
  capture_active = false;
  verbose = false;
  verbose_own = false;
  capturing = false;
}

abbrev refused : Window padded
refused = record { sending = work ∷ []; start = negsuc 10; listening = []; stop = pos 0 }

abbrev heard : Window padded
heard = record {
  sending = work ∷ [];
  start = pos 0;
  listening = event true (some (1, tone)) ∷ work ∷ [];
  stop = pos 0;
}

-- The driver refuses to start for the first window only.
abbrev air : ℕ → Window padded
air zero = refused
air (suc i) = heard

abbrev two_pulses : List IrPulse
two_pulses = pulse 384 1234 ∷ pulse 384 0 ∷ []

abbrev spare : List IrPulse
spare = pulse 1 1 ∷ []

send_command-IsSent_example :
    (k : ℕ) × (d : Devices padded) × (acked : Bool) × (send_command padded air
        (two_pulses ++ spare)
        2
        (powered padded air two_pulses spare ir_driver_init idle)
      ≡ some (d, acked))
    × (1 ≤ k)
    × (k ≤ 10)
    × (acked ≡ false → k ≡ 10)
    × IsSent padded air two_pulses spare ir_driver_init k d
send_command-IsSent_example =
    send_command-IsSent padded air two_pulses spare padded-HasSpectrum ir_driver_init idle

abbrev all_refused : ℕ → Window padded
all_refused i = refused

send_command_silent_example :
    (d : Devices padded) × (send_command padded all_refused
        (two_pulses ++ spare)
        2
        (powered padded all_refused two_pulses spare ir_driver_init idle)
      ≡ some (d, false))
    × IsSent padded all_refused two_pulses spare ir_driver_init 10 d
send_command_silent_example =
    send_command_silent padded all_refused two_pulses spare padded-HasSpectrum (λ i lt. inl refl)
      ir_driver_init idle

first-IsSilent : (i : ℕ) → i < 1 → IsSilent padded (air i)
first-IsSilent zero lt = inl refl
first-IsSilent (suc i) lt = absurd (omega arith)

air-IsSteady : (i : ℕ) → i ≤ 1 → IsSteady padded (air i)
air-IsSteady zero le = record { sending = (tt, tt); listening = tt }
air-IsSteady (suc i) le = record { sending = (tt, tt); listening = (tt, (tt, tt)) }

tone_found :
    detect padded 25 (windowed padded 0 tone ++ replicate 280 0)
    ≡ some (record { cut = 81; cfar_thresh = 0 })
unfolding detect bin_power is_training noise_loop noise_sum detection_of windowed
tone_found = refl

heard-IsLoud : IsLoud padded 25 heard
heard-IsLoud = record {
  started = refl;
  requested = true;
  idx = 1;
  samples = tone;
  later = [];
  released = refl;
  in_range = omega arith;
  detection = record { cut = 81; cfar_thresh = 0 };
  found = tone_found;
  passed = refl;
}

idle-IsTuned : IsTuned padded 25 idle
idle-IsTuned = record { tuned = refl; two = refl }

send_command_loud_example :
    (d : Devices padded) × (send_command padded air
        (two_pulses ++ spare)
        2
        (powered padded air two_pulses spare ir_driver_init idle)
      ≡ some (d, true))
    × IsSent padded air two_pulses spare ir_driver_init 2 d
send_command_loud_example =
    send_command_loud padded air two_pulses spare 25 1 padded-HasSpectrum (omega arith)
      first-IsSilent air-IsSteady heard-IsLoud ir_driver_init idle idle-IsTuned
