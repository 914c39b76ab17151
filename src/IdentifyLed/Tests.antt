-- ===== src/IdentifyLed/Tests.antt =====
-- The theorems on the LED at concrete states.
use shirokumakun_matter.Common.{Bool, ◌≡◌, refl, true, false, some, [], ◌∷◌}
use shirokumakun_matter.IdentifyLed.{
  Led, on_identify_start, on_identify_stop, blink_expires, work_runs, run, start_blink, stop_blink,
  initial, on_event, blink_work_fn, blink_timer_fn, stop_timer_fn,
}
use shirokumakun_matter.IdentifyLed.Threads.{
  idle, to_turn_off, stops_timer, clears, starts_timer_triggered, auto_stops, turns_off, resting,
  Threads, shell_trigger, shell_moves, matter_moves, stop_expires, NoIdentifyStart, StartsNothing,
  Runs, start, next,
}
use shirokumakun_matter.IdentifyLed.Threads.AutoStop.{at_init, Runs-will_stop}
use shirokumakun_matter.IdentifyLed.Threads.TurnOff.{Runs-off}
use shirokumakun_matter.IdentifyLed.Blink.{at_rest, Ends, stop_blink_late_work}

-- One period passes between the start and the stop of identifying.
one_blink :
    run (on_identify_start ∷ blink_expires ∷ work_runs ∷ on_identify_stop ∷ []) initial
    ≡ some (at_rest true false)
unfolding run on_event blink_work_fn blink_timer_fn start_blink stop_blink
one_blink = refl

-- The blink timer has expired and its work item has not run yet.
abbrev about_to_light : Led
about_to_light = record {
  blink_timer = true;
  stop_timer = false;
  work_pending = true;
  blink_on = false;
  lit = false;
}

stop_blink_late_work_example :
    Ends true (run (work_runs ∷ []) (stop_blink about_to_light))
    × (run (work_runs ∷ []) (stop_blink about_to_light) ≡ some (at_rest true true))
stop_blink_late_work_example = stop_blink_late_work about_to_light [] refl refl tt

-- The shell has triggered the LED, with no interrupt between its statements.
abbrev triggered : Threads
triggered = record at_init { led = record initial { blink_timer = true; stop_timer = true } }

triggered-Runs : Runs NoIdentifyStart at_init triggered
triggered-Runs =
    let r =
      next (next (next start (shell_trigger refl) tt) (shell_moves stops_timer) tt)
        (shell_moves clears) tt in
    next (next r (shell_moves starts_timer_triggered) tt) (shell_moves auto_stops) tt

Runs-will_stop_example : ◌≡◌ {A = Bool} true true
Runs-will_stop_example = Runs-will_stop triggered-Runs refl refl refl

-- The stop timer expires before the Matter thread turns the LED off.
abbrev turning_off : Threads
turning_off = record {
  led = record initial { stop_timer = true; lit = true };
  matter = to_turn_off;
  shell = idle;
  worker = resting;
}

turned_off-Runs :
    Runs StartsNothing turning_off (record turning_off { led = initial; matter = idle })
unfolding stop_timer_fn
turned_off-Runs = next (next start (stop_expires refl) tt) (matter_moves turns_off) tt

Runs-off_example : initial.lit ≡ false
Runs-off_example = Runs-off refl refl refl refl refl turned_off-Runs refl
