-- ===== src/ShellCommands/Tests.antt =====
-- `ac off` after a callback has sent a state that is on.
use Prim.Native.String.{String}
use text.Mathlib.Text.{◌==◌ as ◌=s=◌}
use shirokumakun_matter.Common.{
  ap, ◌&&◌, if◌then◌else◌, ◌∷◌, ◌++◌, ◌==◌, false, none, Option, Bool, ◌≡◌, refl, true, some, [],
  replicate, arith, length, ℕ, List,
}
use shirokumakun_matter.Common.Int.{ℤ, pos, negsuc}
use shirokumakun_matter.IrProtocol.{heating, speed_3, ir_max_pulses}
use shirokumakun_matter.IrProtocol.Waveform.{pulse}
use shirokumakun_matter.ZclCallbacks.{Attributes, AttributePath, on_off, ac_state_of}
use shirokumakun_matter.ShellCommands.{Firmware, off_state, cmd_off, attribute_changed}
use shirokumakun_matter.Scd40Manager.{
  Measurement, Scd40, good, update_matter_attributes, decode_measurement, ok, crc_matches,
  sensirion_crc, temp_of_raw, rh_of_raw,
}
use shirokumakun_matter.PdmManager.Settings.{Setting, Persists, Answers, reset, pdm_manager_init}
use shirokumakun_matter.ShellCommands.Reading.{
  ReadingLine, reading, line_of, abs_i16, quotient_100, remainder_100, cmd_scd, Reads,
  cmd_scd-Reads,
}
use shirokumakun_matter.ShellCommands.Tuning.{
  printed_threshold, asked, cmd_threshold, cmd_threshold-asked,
}
use shirokumakun_matter.ShellCommands.Pairing.{Code, cmd_qr, shown, cmd_qr-shown}
use shirokumakun_matter.ShellCommands.QrCode.{draw, ink}
use shirokumakun_matter.ShellCommands.Off.{last_heard, cmd_off-attribute_changed}

abbrev heating_on : Attributes
heating_on = record {
  on_off = some true;
  system_mode = some 4;
  cooling_setpoint = some (pos 2600);
  heating_setpoint = some (pos 2199);
  fan_mode = some 2;
}

abbrev on_path : AttributePath
on_path = record { endpoint_id = 1; cluster_id = on_off }

abbrev heating_sent : Firmware
heating_sent = record {
  zcl = record {
    last_sent = record { power = true; mode = heating; temp_c = 21; fan = speed_3 };
    last_sent_valid = true;
    ir_ready = true;
    pulses = replicate ir_max_pulses (pulse 0 0);
  };
  off_pulses = replicate ir_max_pulses (pulse 0 0);
  dispatched = [];
}

heating_on_state : ac_state_of heating_on ≡ heating_sent.zcl.last_sent
unfolding ac_state_of
heating_on_state = refl

cmd_off-attribute_changed_example :
    (w' : Firmware) × (cmd_off heating_sent ≡ some w')
    × (length w'.dispatched ≡ 1)
    × (attribute_changed on_path heating_on w' ≡ some w')
    × (last_heard w'.dispatched ≡ some (record off_state { mode = heating }))
cmd_off-attribute_changed_example =
    cmd_off-attribute_changed heating_sent on_path heating_on (omega arith) refl heating_on_state

-- A code of one dark module.
abbrev one_dark : ℕ → ℕ → Bool
one_dark x y = true

abbrev light_row : List ℕ
light_row = 35 ∷ 35 ∷ 35 ∷ 35 ∷ 35 ∷ 35 ∷ 35 ∷ 35 ∷ 35 ∷ 35 ∷ 0 ∷ []

one_dark_drawn :
    draw 1 one_dark
    ≡ some (
        light_row
        ∷ light_row
        ∷ (35 ∷ 35 ∷ 35 ∷ 35 ∷ 32 ∷ 32 ∷ 35 ∷ 35 ∷ 35 ∷ 35 ∷ 0 ∷ [])
        ∷ light_row
        ∷ light_row
        ∷ [])
unfolding draw ink
one_dark_drawn = refl

abbrev answer : List ℕ
answer = 0xBE ∷ 0xEF ∷ 0x92 ∷ 0xBE ∷ 0xEF ∷ 0x92 ∷ 0xBE ∷ 0xEF ∷ 0x92 ∷ []

abbrev measured : Measurement
measured = record { co2_ppm = 0xBEEF; temp_001c = pos 8552; rh_001pct = 7458 }

answer-decoded : decode_measurement answer ≡ ok measured
unfolding decode_measurement crc_matches sensirion_crc temp_of_raw rh_of_raw
answer-decoded = refl

abbrev nothing_read : Scd40
nothing_read = record {
  last_reading = record { co2_ppm = 0; temp_001c = pos 0; rh_001pct = 0; valid = false };
  published = record {
    local_temperature = pos 0;
    relative_humidity = 0;
    air_quality = good;
    co2_concentration = 0;
  };
}

-- 12.05 degrees below zero.
cold_line :
    line_of (record { co2_ppm = 415; temp_001c = negsuc 1204; rh_001pct = 4507; valid = true })
    ≡ record {
      co2 = 415;
      minus = true;
      degrees = pos 12;
      hundredths = pos 5;
      rh_percent = 45;
      rh_hundredths = 7;
    }
unfolding line_of abs_i16 quotient_100 remainder_100
cold_line = refl

cmd_scd-Reads_example :
    (l : ReadingLine) × (cmd_scd (update_matter_attributes measured nothing_read) ≡ reading l)
    × Reads l measured
cmd_scd-Reads_example = cmd_scd-Reads answer measured nothing_read answer-decoded

abbrev is_zero_ℕ : ℕ → Bool
is_zero_ℕ n = n == 0

-- Settings kept in a list by their keys, the newest last.
record Saved : Type 0 where
  key : String
  value : ℕ

abbrev append_setting : String → ℕ → List Saved → List Saved × ℤ
append_setting key t store = (store ++ record { key = key; value = t } ∷ [], pos 0)

abbrev name_of : String → String
name_of key = if key =s= "pdm/threshold" then "threshold" else key

abbrev shown_of : List Saved → List (Setting ℕ)
shown_of [] = []
shown_of (s ∷ store) = record { name = name_of s.key; len = 4; value = s.value } ∷ shown_of store

-- Only the subtree "pdm" has a handler.
abbrev settings_in : List Saved → String → String → List (Setting ℕ)
settings_in store loaded handler =
    if loaded =s= "pdm" && handler =s= "pdm" then shown_of store else []

shown_of-newest :
    (store : List Saved) (t : ℕ)
    → shown_of (store ++ record { key = "pdm/threshold"; value = t } ∷ [])
      ≡ shown_of store ++ record { name = "threshold"; len = 4; value = t } ∷ []
shown_of-newest [] t = refl
shown_of-newest (s ∷ store) t =
    ap (λ rest. record { name = name_of s.key; len = 4; value = s.value } ∷ rest)
      (shown_of-newest store t)

append_setting-Persists : Persists append_setting settings_in "pdm" "threshold"
append_setting-Persists = record {
  found = λ t store saved. (shown_of store, [], shown_of-newest store t, tt);
}

-- How the values of the tests are printed.
abbrev format : String → ℕ → String
format shape n =
    if shape =s= "%.1f"
    then (if n == 40 then "40.0" else "25.0")
    else (if n == 40 then "40.000000" else "25.000000")

abbrev all_well : Answers
all_well = record { gpio_ready = true; configure = pos 0; driver = pos 0 }

cmd_threshold-asked_example :
    let (store', p') =
      (cmd_threshold is_zero_ℕ format append_setting settings_in (some 40) ([], reset 25)).state in
    (asked is_zero_ℕ format append_setting settings_in (store', p')
      ≡ printed_threshold (format "%.1f" 40))
    × (asked is_zero_ℕ format append_setting settings_in
          (store', pdm_manager_init all_well (settings_in store') (reset 25))
        ≡ printed_threshold (format "%.1f" 40))
cmd_threshold-asked_example =
    cmd_threshold-asked is_zero_ℕ format append_setting settings_in append_setting-Persists 40 25 []
      (reset 25) all_well refl refl refl refl refl

abbrev encode_one : List ℕ → Option Code
encode_one text = some (record { size = 1; get_module = one_dark })

cmd_qr-shown_example :
    cmd_qr (some (77 ∷ 84 ∷ [])) none encode_one
    ≡ some (shown (some (77 ∷ 84 ∷ [])) none (encode_one (77 ∷ 84 ∷ [])))
cmd_qr-shown_example =
    cmd_qr-shown (some (77 ∷ 84 ∷ [])) none encode_one (omega arith) tt (omega arith)
