-- ===== src/ZclCallbacks/Tests.antt =====
-- Tests of the callbacks, and their theorems at concrete attributes.
use shirokumakun_matter.Common.{◌≡◌, refl, true, false, none, some, List, [], ◌∷◌, arith, replicate}
use shirokumakun_matter.Common.Int.{pos, neg}
use shirokumakun_matter.IrProtocol.{cooling, heating, auto, speed_3, ir_max_pulses}
use shirokumakun_matter.IrProtocol.Waveform.{pulse}
use shirokumakun_matter.ZclCallbacks.{
  Attributes, ac_state_of, clamped_temp, Zcl, on_off, thermostat, zcl_callbacks_ready,
}
use shirokumakun_matter.ZclCallbacks.Desired.{clamped_temp_negative}
use shirokumakun_matter.ZclCallbacks.Send.{IsValid}
use shirokumakun_matter.ZclCallbacks.Requested.{requested}
use shirokumakun_matter.ZclCallbacks.Events.{Event, Runs, wanted, run, zcl_callbacks_ready-run}

abbrev cold_start : Zcl
cold_start = record {
  last_sent = record { power = false; mode = cooling; temp_c = 0; fan = auto };
  last_sent_valid = false;
  ir_ready = false;
  pulses = replicate ir_max_pulses (pulse 0 0);
}

abbrev restored : Attributes
restored = record {
  on_off = some true;
  system_mode = some 4;
  cooling_setpoint = some (pos 2600);
  heating_setpoint = some (pos 2199);
  fan_mode = some 2;
}

heating_state :
    ac_state_of restored ≡ record { power = true; mode = heating; temp_c = 21; fan = speed_3 }
unfolding ac_state_of
heating_state = refl

-- Reads that fail leave the defaults: off, cooling, 24 degrees, automatic fan.
default_state :
    ac_state_of (record {
      on_off = none;
      system_mode = none;
      cooling_setpoint = none;
      heating_setpoint = none;
      fan_mode = none;
    })
    ≡ record { power = false; mode = cooling; temp_c = 24; fan = auto }
unfolding ac_state_of
default_state = refl

abbrev changes_made : List Event
changes_made =
    record { path = record { endpoint_id = 1; cluster_id = on_off }; attributes = restored }
    ∷ record {
      path = record { endpoint_id = 1; cluster_id = thermostat };
      attributes = record restored { heating_setpoint = some (pos 2500) };
    }
    ∷ []

cold_start-IsValid : IsValid cold_start
cold_start-IsValid = record { room = refl; sendable = λ e. cc }

zcl_callbacks_ready-run_example :
    ((zcl_callbacks_ready restored cold_start).last_sent ≡ requested restored)
    × Runs
        (zcl_callbacks_ready restored cold_start)
        (wanted changes_made)
        (run changes_made (zcl_callbacks_ready restored cold_start))
zcl_callbacks_ready-run_example =
    zcl_callbacks_ready-run restored changes_made cold_start cold_start-IsValid

clamped_temp_negative_example : clamped_temp (neg 500) ≡ 30
clamped_temp_negative_example = clamped_temp_negative 500 (omega arith) (omega arith)
