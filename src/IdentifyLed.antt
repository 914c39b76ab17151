-- ===== src/IdentifyLed.antt =====
-- The identify LED of src/identify_led.cpp. Its functions are steps on one state, and the timers
-- and the work queue run them as events. A timer that runs may expire at any time. Here a function
-- runs without an interrupt between its statements; Threads has the interleavings of them.
pub mod Blink
pub mod Threads
mod Tests
use shirokumakun_matter.Common.{
  Bool, true, false, not, List, [], ◌∷◌, Option, none, some, if◌then◌else◌,
}
use shirokumakun_matter.Common.Int.{ℤ, pos, negsuc}

-- The static variables, and of the kernel whether each timer runs, whether `blink_work` is
-- pending, and the level of the LED's pin.
pub record Led : Type 0 where
  pub blink_timer : Bool
  pub stop_timer : Bool
  pub work_pending : Bool
  pub blink_on : Bool
  pub lit : Bool

-- The work queue takes the item off before it runs it.
unfoldable pub blink_work_fn : Led → Led
blink_work_fn s =
    let on = not s.blink_on in record s { work_pending = false; blink_on = on; lit = on }

-- Submitting a pending item again changes nothing.
unfoldable pub blink_timer_fn : Led → Led
blink_timer_fn s = record s { work_pending = true }

-- The stop timer has no period, so it has ended when its function runs.
unfoldable pub stop_timer_fn : Led → Led
stop_timer_fn s = record s { stop_timer = false; blink_timer = false; lit = false }

unfoldable pub start_blink : Led → Led
start_blink s = record s { stop_timer = false; blink_on = false; blink_timer = true }

unfoldable pub stop_blink : Led → Led
stop_blink s = record s { stop_timer = false; blink_timer = false; lit = false }

unfoldable pub identify_led_trigger : Led → Led
identify_led_trigger s = record (start_blink s) { stop_timer = true }

abbrev enodev : ℤ
enodev = negsuc 18

-- The state that the static variables and `GPIO_OUTPUT_INACTIVE` give.
abbrev pub initial : Led
initial = record {
  blink_timer = false;
  stop_timer = false;
  work_pending = false;
  blink_on = false;
  lit = false;
}

-- `ready` is the answer of `gpio_is_ready_dt`.
abbrev pub identify_led_init : Bool → Led → ℤ × Led
identify_led_init ready s = if ready then (pos 0, initial) else (enodev, s)

pub data Event : Type 0 where
  on_identify_start : Event
  on_identify_stop : Event
  on_trigger_effect : Event
  shell_trigger : Event
  blink_expires : Event
  stop_expires : Event
  work_runs : Event

-- What an event does; `none` if it cannot happen.
unfoldable pub on_event : Event → Led → Option Led
unfolding blink_work_fn blink_timer_fn stop_timer_fn start_blink stop_blink identify_led_trigger
on_event on_identify_start s = some (start_blink s)
on_event on_identify_stop s = some (stop_blink s)
on_event on_trigger_effect s = some (start_blink s)
on_event shell_trigger s = some (identify_led_trigger s)
on_event blink_expires s = if s.blink_timer then some (blink_timer_fn s) else none
on_event stop_expires s = if s.stop_timer then some (stop_timer_fn s) else none
on_event work_runs s = if s.work_pending then some (blink_work_fn s) else none

unfoldable pub run : List Event → Led → Option Led
unfolding on_event
run [] s = some s
run (e ∷ es) s = elim (on_event e s) [ none ↦ none | some s' ↦ run es s' ]
