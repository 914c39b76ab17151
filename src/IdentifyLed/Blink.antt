-- ===== src/IdentifyLed/Blink.antt =====
-- How the LED of src/identify_led.cpp blinks and stops.
use shirokumakun_matter.Common.{
  ap, ◌∙◌, ℕ, zero, suc, ◌≡◌, refl, Bool, true, false, not, List, [], ◌∷◌, Option, none, some, All,
}
use shirokumakun_matter.IdentifyLed.{
  Led, Event, on_identify_start, on_identify_stop, on_trigger_effect, shell_trigger, blink_expires,
  stop_expires, work_runs, on_event, run, blink_timer_fn, blink_work_fn, stop_timer_fn, start_blink,
  stop_blink, identify_led_trigger,
}

-- The events that start no blinking.
abbrev pub StartsNothing : Event → Type 0
StartsNothing on_identify_start = ⊥
StartsNothing on_trigger_effect = ⊥
StartsNothing shell_trigger = ⊥
StartsNothing _ = Unit

-- The LED is at rest at a level.
abbrev pub at_rest : Bool → Bool → Led
at_rest on level = record {
  blink_timer = false;
  stop_timer = false;
  work_pending = false;
  blink_on = on;
  lit = level;
}

-- What a run makes of a state, if it can happen: the level of the LED at its end.
abbrev pub Ends : Bool → Option Led → Type 0
Ends level none = Unit
Ends level (some s) = s.lit ≡ level

run-at_rest_off :
    (on : Bool) (events : List Event)
    → All StartsNothing events
    → Ends false (run events (at_rest on false))
unfolding run on_event stop_blink
run-at_rest_off on [] h = refl
run-at_rest_off on (on_identify_start ∷ es) h = absurd h.0
run-at_rest_off on (on_trigger_effect ∷ es) h = absurd h.0
run-at_rest_off on (shell_trigger ∷ es) h = absurd h.0
run-at_rest_off on (on_identify_stop ∷ es) h = run-at_rest_off on es h.1
run-at_rest_off on (blink_expires ∷ es) h = tt
run-at_rest_off on (stop_expires ∷ es) h = tt
run-at_rest_off on (work_runs ∷ es) h = tt

-- If no work item is pending when identifying stops, the LED is off after every later sequence of
-- events that can happen and in which none starts it.
pub stop_blink-off :
    (s : Led) (events : List Event)
    → s.work_pending ≡ false
    → All StartsNothing events
    → Ends false (run events (stop_blink s))
unfolding stop_blink
stop_blink-off s events idle h = rw idle (run-at_rest_off s.blink_on events h)

abbrev pub StartsOrStopsNothing : Event → Type 0
StartsOrStopsNothing on_identify_stop = ⊥
StartsOrStopsNothing e = StartsNothing e

run-at_rest_on :
    (on : Bool) (events : List Event)
    → All StartsOrStopsNothing events
    → Ends true (run events (at_rest on true))
unfolding run on_event
run-at_rest_on on [] h = refl
run-at_rest_on on (on_identify_start ∷ es) h = absurd h.0
run-at_rest_on on (on_trigger_effect ∷ es) h = absurd h.0
run-at_rest_on on (shell_trigger ∷ es) h = absurd h.0
run-at_rest_on on (on_identify_stop ∷ es) h = absurd h.0
run-at_rest_on on (blink_expires ∷ es) h = tt
run-at_rest_on on (stop_expires ∷ es) h = tt
run-at_rest_on on (work_runs ∷ es) h = tt

-- If identifying stops while a work item is pending and the next blink would light the LED, the
-- item runs after the stop and lights it, and it stays lit after every later sequence of events
-- that can happen and in which none starts or stops it.
pub stop_blink_late_work :
    (s : Led) (events : List Event)
    → s.work_pending ≡ true
    → s.blink_on ≡ false
    → All StartsOrStopsNothing events
    → Ends true (run (work_runs ∷ events) (stop_blink s))
      × (run (work_runs ∷ []) (stop_blink s) ≡ some (at_rest true true))
unfolding run on_event stop_blink
stop_blink_late_work s events pending dark h =
    rw (pending, dark) (run-at_rest_on true events h, refl)

-- So many times the blink timer expires and its work item runs, and then the given events.
abbrev pub blinks_then : ℕ → List Event → List Event
blinks_then zero events = events
blinks_then (suc n) events = blink_expires ∷ work_runs ∷ blinks_then n events

abbrev pub is_odd : ℕ → Bool
is_odd zero = false
is_odd (suc n) = not (is_odd n)

-- Blinking, with the pin as `blink_on` has it.
abbrev pub blinking : Bool → Bool → Led
blinking auto_stop on = record {
  blink_timer = true;
  stop_timer = auto_stop;
  work_pending = false;
  blink_on = on;
  lit = on;
}

abbrev flips : ℕ → Bool → Bool
flips zero on = on
flips (suc n) on = flips n (not on)

flips-not : (n : ℕ) (on : Bool) → flips n (not on) ≡ not (flips n on)
flips-not zero on = refl
flips-not (suc n) on = flips-not n (not on)

flips-is_odd : (n : ℕ) → flips n false ≡ is_odd n
flips-is_odd zero = refl
flips-is_odd (suc n) = rw (flips-not n false, flips-is_odd n) refl

run-blinking :
    (n : ℕ) (auto_stop on : Bool) (events : List Event)
    → run (blinks_then n events) (blinking auto_stop on)
      ≡ run events (blinking auto_stop (flips n on))
unfolding run on_event blink_timer_fn blink_work_fn
run-blinking zero auto_stop on events = refl
run-blinking (suc n) auto_stop on events = run-blinking n auto_stop (not on) events

-- If no work item is pending when identifying starts, the LED is lit after an odd number of
-- periods of the blink timer and dark after an even number, from the first on, and goes on
-- blinking: the stop timer does not run.
pub start_blink-blinks :
    (s : Led) (n : ℕ)
    → s.work_pending ≡ false
    → run (blinks_then (suc n) []) (start_blink s) ≡ some (blinking false (is_odd (suc n)))
unfolding run on_event blink_timer_fn blink_work_fn start_blink
start_blink-blinks s n idle =
    run-blinking n false true [] ∙ ap (λ b. some (blinking false b)) (flips-is_odd (suc n))

-- If no work item is pending when the shell starts the LED, then after any number of periods,
-- from the first on, the stop timer's expiry leaves it dark with both timers stopped and no work
-- item pending.
pub identify_led_trigger-ends :
    (s : Led) (n : ℕ)
    → s.work_pending ≡ false
    → run (blinks_then (suc n) (stop_expires ∷ [])) (identify_led_trigger s)
      ≡ some (at_rest (is_odd (suc n)) false)
unfolding run on_event blink_timer_fn blink_work_fn start_blink identify_led_trigger stop_timer_fn
identify_led_trigger-ends s n idle =
    run-blinking n true true (stop_expires ∷ [])
    ∙ ap (λ b. some (at_rest b false)) (flips-is_odd (suc n))
