-- ===== src/AppTask/Tests.antt =====
-- Start-ups in which the Matter stack restores an attribute.
use shirokumakun_matter.Common.{refl, true, false, some, none, [], ◌∷◌, replicate}
use shirokumakun_matter.Common.Int.{pos}
use shirokumakun_matter.IrProtocol.{cooling, auto, ir_max_pulses}
use shirokumakun_matter.IrProtocol.Waveform.{pulse}
use shirokumakun_matter.ZclCallbacks.{Attributes, Zcl, on_off}
use shirokumakun_matter.ZclCallbacks.Events.{Event}
use shirokumakun_matter.AppTask.{Statuses, main}
use shirokumakun_matter.AppTask.StartUp.{cold, Ends, main-Ends}

abbrev stored_on : Attributes
stored_on = record {
  on_off = some true;
  system_mode = some 4;
  cooling_setpoint = some (pos 2600);
  heating_setpoint = some (pos 2199);
  fan_mode = none;
}

abbrev restored_on : Event
restored_on = record {
  path = record { endpoint_id = 1; cluster_id = on_off };
  attributes = stored_on;
}

abbrev after_reset : Zcl
after_reset = record {
  last_sent = record { power = false; mode = cooling; temp_c = 0; fan = auto };
  last_sent_valid = false;
  ir_ready = false;
  pulses = replicate ir_max_pulses (pulse 0 0);
}

abbrev no_server : Statuses
no_server = record { pairing = pos 0; prepare = pos 0; start = pos 3 }

main-Ends_example :
    Ends no_server stored_on after_reset
      (main no_server (restored_on ∷ []) stored_on (cold after_reset))
main-Ends_example = main-Ends no_server (restored_on ∷ []) stored_on after_reset refl
