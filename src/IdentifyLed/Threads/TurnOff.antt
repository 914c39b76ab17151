-- ===== src/IdentifyLed/Threads/TurnOff.antt =====
-- Stopping in src/identify_led.cpp turns the LED off for good, whatever interrupts it, unless the
-- work item is on its way.
use mathlib.Core.Bool.{false≢true}
use shirokumakun_matter.Common.{◌≡◌, refl, sym, ◌∙◌, false}
use shirokumakun_matter.IdentifyLed.{Led, blink_timer_fn, stop_timer_fn}
use shirokumakun_matter.IdentifyLed.Threads.{
  At, idle, to_stop_timer, to_clear, to_start_timer, to_auto_stop, to_end_stop_timer,
  to_end_blink_timer, to_turn_off, Move, stops_timer, clears, starts_timer, starts_timer_triggered,
  auto_stops, ends_stop_timer, ends_blink_timer, turns_off, resting, Threads, LedStep,
  identify_start, identify_stop, shell_trigger, matter_moves, shell_moves, blink_expires,
  stop_expires, work_runs, toggles, shows, StartsNothing, Runs, start, next,
}

-- The LED is off, or the Matter thread is about to turn it off.
abbrev Off : Led → At → Type 0
Off s to_turn_off = Unit
Off s idle = s.lit ≡ false
Off s to_end_stop_timer = s.lit ≡ false
Off s to_end_blink_timer = s.lit ≡ false
Off s _ = ⊥

record Ended (s : Threads) : Type 0 where
  stopped : s.led.blink_timer ≡ false
  unsubmitted : s.led.work_pending ≡ false
  rests : s.worker ≡ resting
  shell_idle : s.shell ≡ idle
  off : Off s.led s.matter

-- A statement of the Matter thread starts nothing and leaves the LED off.
record StillOff (s s' : Led) (m' : At) : Type 0 where
  timer : s.blink_timer ≡ false → s'.blink_timer ≡ false
  work : s'.work_pending ≡ s.work_pending
  off : Off s' m'

matter-StillOff : (s s' : Led) (m m' : At) → Move s m s' m' → Off s m → StillOff s s' m'
matter-StillOff s s' m m' stops_timer o = absurd o
matter-StillOff s s' m m' clears o = absurd o
matter-StillOff s s' m m' starts_timer o = absurd o
matter-StillOff s s' m m' starts_timer_triggered o = absurd o
matter-StillOff s s' m m' auto_stops o = absurd o
matter-StillOff s s' m m' ends_stop_timer o = record { timer = λ e. e; work = refl; off = o }
matter-StillOff s s' m m' ends_blink_timer o = record { timer = λ e. refl; work = refl; off = tt }
matter-StillOff s s' m m' turns_off o = record { timer = λ e. e; work = refl; off = refl }

idle-Move : (s s' : Led) (m m' : At) → m ≡ idle → Move s m s' m' → ⊥
idle-Move s s' m m' e stops_timer = cc e
idle-Move s s' m m' e clears = cc e
idle-Move s s' m m' e starts_timer = cc e
idle-Move s s' m m' e starts_timer_triggered = cc e
idle-Move s s' m m' e auto_stops = cc e
idle-Move s s' m m' e ends_stop_timer = cc e
idle-Move s s' m m' e ends_blink_timer = cc e
idle-Move s s' m m' e turns_off = cc e

-- The stop timer's function turns the LED off too.
Off-dark : (s s' : Led) (m : At) → s'.lit ≡ false → Off s m → Off s' m
Off-dark s s' to_turn_off dark o = tt
Off-dark s s' idle dark o = dark
Off-dark s s' to_end_stop_timer dark o = dark
Off-dark s s' to_end_blink_timer dark o = dark
Off-dark s s' (to_stop_timer b) dark o = absurd o
Off-dark s s' (to_clear b) dark o = absurd o
Off-dark s s' (to_start_timer b) dark o = absurd o
Off-dark s s' to_auto_stop dark o = absurd o

LedStep-Ended :
    {s s' : Threads} (step : LedStep s s') → StartsNothing s s' step → Ended s → Ended s'
unfolding blink_timer_fn stop_timer_fn
LedStep-Ended (identify_start free) ok g = absurd ok
LedStep-Ended {s = s} (identify_stop free) ok g = record {
  stopped = g.stopped;
  unsubmitted = g.unsubmitted;
  rests = g.rests;
  shell_idle = g.shell_idle;
  off = rw free at (g.off);
}
LedStep-Ended (shell_trigger free) ok g = absurd ok
LedStep-Ended {s = s} (matter_moves {led = led} {at = at} move) ok g =
    let o = matter-StillOff s.led led s.matter at move g.off in
    record {
      stopped = o.timer g.stopped;
      unsubmitted = o.work ∙ g.unsubmitted;
      rests = g.rests;
      shell_idle = g.shell_idle;
      off = o.off;
    }
LedStep-Ended {s = s} (shell_moves {led = led} {at = at} move) ok g =
    absurd (idle-Move s.led led s.shell at g.shell_idle move)
LedStep-Ended (blink_expires e) ok g = absurd (false≢true (sym g.stopped ∙ e))
LedStep-Ended {s = s} (stop_expires e) ok g = record {
  stopped = refl;
  unsubmitted = g.unsubmitted;
  rests = g.rests;
  shell_idle = g.shell_idle;
  off = Off-dark s.led (stop_timer_fn s.led) s.matter refl g.off;
}
LedStep-Ended (work_runs e f) ok g = absurd (false≢true (sym g.unsubmitted ∙ e))
LedStep-Ended (toggles e) ok g = cc (g.rests, e)
LedStep-Ended (shows e) ok g = cc (g.rests, e)

Runs-Ended : {s s' : Threads} → Ended s → Runs StartsNothing s s' → Ended s'
Runs-Ended g start = g
Runs-Ended g (next r step ok) = LedStep-Ended step ok (Runs-Ended g r)

-- If `stop_blink` has stopped the blink timer with the work item neither pending nor running and
-- the shell's thread out of these functions, then after any interleaving in which nothing is
-- started, the LED is off whenever the Matter thread is out of these functions.
pub Runs-off :
    {s s' : Threads}
    → s.matter ≡ to_turn_off
    → s.led.blink_timer ≡ false
    → s.led.work_pending ≡ false
    → s.worker ≡ resting
    → s.shell ≡ idle
    → Runs StartsNothing s s'
    → s'.matter ≡ idle
    → s'.led.lit ≡ false
Runs-off {s = s} m b p w h r at_end = rw at_end at (
    (Runs-Ended (record { stopped = b; unsubmitted = p; rests = w; shell_idle = h; off = rw m tt })
      r).off)
