-- ===== src/IdentifyLed/Threads.antt =====
-- The functions of src/identify_led.cpp statement by statement: the Matter thread, the shell's
-- thread and the work queue preempt one another between any two. The two timer functions run in
-- the interrupt of the clock, which no thread preempts.
pub mod AutoStop
pub mod TurnOff
use shirokumakun_matter.Common.{ℕ, ◌≡◌, refl, Bool, true, false, not, List, [], ◌∷◌}
use shirokumakun_matter.IdentifyLed.{
  Led, blink_timer_fn, stop_timer_fn, start_blink, stop_blink, identify_led_trigger,
}

-- The next statement of a thread. In `start_blink` it is known whether `identify_led_trigger` is the
-- caller.
pub data At : Type 0 where
  idle : At
  -- `start_blink`
  to_stop_timer to_clear to_start_timer : (triggered : Bool) → At
  -- `identify_led_trigger`, after `start_blink`
  to_auto_stop : At
  -- `stop_blink`
  to_end_stop_timer to_end_blink_timer to_turn_off : At

-- A statement of a thread.
pub data Move (s : Led) : At → Led → At → Type 0 where
  stops_timer : {b : Bool} → Move s (to_stop_timer b) (record s { stop_timer = false }) (to_clear b)
  clears : {b : Bool} → Move s (to_clear b) (record s { blink_on = false }) (to_start_timer b)
  starts_timer : Move s (to_start_timer false) (record s { blink_timer = true }) idle
  starts_timer_triggered :
      Move s (to_start_timer true) (record s { blink_timer = true }) to_auto_stop
  auto_stops : Move s to_auto_stop (record s { stop_timer = true }) idle
  ends_stop_timer : Move s to_end_stop_timer (record s { stop_timer = false }) to_end_blink_timer
  ends_blink_timer : Move s to_end_blink_timer (record s { blink_timer = false }) to_turn_off
  turns_off : Move s to_turn_off (record s { lit = false }) idle

-- `blink_work_fn` on the work queue.
pub data WorkAt : Type 0 where
  resting to_toggle to_show : WorkAt

pub record Threads : Type 0 where
  pub led : Led
  pub matter : At
  pub shell : At
  pub worker : WorkAt

-- `identify_start` is OnIdentifyStart and OnTriggerEffect, `identify_stop` is OnIdentifyStop.
pub data LedStep (s : Threads) : Threads → Type 0 where
  identify_start : s.matter ≡ idle → LedStep s (record s { matter = to_stop_timer false })
  identify_stop : s.matter ≡ idle → LedStep s (record s { matter = to_end_stop_timer })
  shell_trigger : s.shell ≡ idle → LedStep s (record s { shell = to_stop_timer true })
  matter_moves :
      {led : Led} {at : At}
      → Move s.led s.matter led at
      → LedStep s (record s { led = led; matter = at })
  shell_moves :
      {led : Led} {at : At}
      → Move s.led s.shell led at
      → LedStep s (record s { led = led; shell = at })
  blink_expires : s.led.blink_timer ≡ true → LedStep s (record s { led = blink_timer_fn s.led })
  stop_expires : s.led.stop_timer ≡ true → LedStep s (record s { led = stop_timer_fn s.led })
  work_runs :
      s.led.work_pending ≡ true
      → s.worker ≡ resting
      → LedStep s (record s { led = record s.led { work_pending = false }; worker = to_toggle })
  toggles :
      s.worker ≡ to_toggle
      → LedStep s
          (record s { led = record s.led { blink_on = not s.led.blink_on }; worker = to_show })
  shows :
      s.worker ≡ to_show
      → LedStep s (record s { led = record s.led { lit = s.led.blink_on }; worker = resting })

-- Not a start of identifying by the Matter thread.
abbrev pub NoIdentifyStart : (s s' : Threads) → LedStep s s' → Type 0
NoIdentifyStart s s' (identify_start free) = ⊥
NoIdentifyStart s s' _ = Unit

-- Nothing that starts the blinking.
abbrev pub StartsNothing : (s s' : Threads) → LedStep s s' → Type 0
StartsNothing s s' (identify_start free) = ⊥
StartsNothing s s' (shell_trigger free) = ⊥
StartsNothing s s' _ = Unit

-- Steps of which each passes `P`.
pub data Runs (P : (s s' : Threads) → LedStep s s' → Type 0) (s : Threads) : Threads → Type 0 where
  start : Runs P s s
  next : {s₁ s₂ : Threads} → Runs P s s₁ → (step : LedStep s₁ s₂) → P s₁ s₂ step → Runs P s s₂

-- The moves of one thread that nothing interrupts.
pub data Moves : Led → At → Led → At → Type 0 where
  done : {s : Led} {at : At} → Moves s at s at
  after :
      {s s₁ s₂ : Led} {at at₁ at₂ : At} → Move s at s₁ at₁ → Moves s₁ at₁ s₂ at₂ → Moves s at s₂ at₂

-- Without an interrupt, the statements do what the functions do.
start_blink-Moves : (s : Led) → Moves s (to_stop_timer false) (start_blink s) idle
unfolding start_blink
start_blink-Moves s = after stops_timer (after clears (after starts_timer done))

stop_blink-Moves : (s : Led) → Moves s to_end_stop_timer (stop_blink s) idle
unfolding stop_blink
stop_blink-Moves s = after ends_stop_timer (after ends_blink_timer (after turns_off done))

trigger-Moves : (s : Led) → Moves s (to_stop_timer true) (identify_led_trigger s) idle
unfolding identify_led_trigger start_blink
trigger-Moves s =
    after stops_timer (after clears (after starts_timer_triggered (after auto_stops done)))
