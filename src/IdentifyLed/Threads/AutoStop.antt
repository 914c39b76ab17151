-- ===== src/IdentifyLed/Threads/AutoStop.antt =====
-- The blink that the shell of src/identify_led.cpp starts ends by itself, whatever interrupts it.
use mathlib.Core.Bool.{false≢true}
use shirokumakun_matter.Common.{◌≡◌, ◌⊎◌, refl, inl, inr, Bool, true, false}
use shirokumakun_matter.IdentifyLed.{Led, initial, blink_timer_fn, stop_timer_fn}
use shirokumakun_matter.IdentifyLed.Threads.{
  At, idle, to_stop_timer, to_clear, to_start_timer, to_auto_stop, to_end_stop_timer,
  to_end_blink_timer, to_turn_off, Move, stops_timer, clears, starts_timer, starts_timer_triggered,
  auto_stops, ends_stop_timer, ends_blink_timer, turns_off, Threads, LedStep, identify_start,
  identify_stop, shell_trigger, matter_moves, shell_moves, blink_expires, stop_expires, work_runs,
  toggles, shows, resting, NoIdentifyStart, Runs, start, next,
}

-- Where the Matter thread is if it only stops: whether the blink timer is about to be stopped.
abbrev Stopping : At → Type 0
Stopping idle = Unit
Stopping to_end_stop_timer = Unit
Stopping to_end_blink_timer = Unit
Stopping to_turn_off = Unit
Stopping _ = ⊥

abbrev is_ending : At → Bool
is_ending to_end_blink_timer = true
is_ending _ = false

-- Where the shell's thread is: whether the stop timer is still to be started.
abbrev Triggering : At → Type 0
Triggering idle = Unit
Triggering (to_stop_timer true) = Unit
Triggering (to_clear true) = Unit
Triggering (to_start_timer true) = Unit
Triggering to_auto_stop = Unit
Triggering _ = ⊥

abbrev is_triggering : At → Bool
is_triggering idle = false
is_triggering _ = true

-- A blink timer that runs will be stopped.
abbrev WillStop : Led → At → At → Type 0
WillStop s m h =
    s.blink_timer ≡ true → (s.stop_timer ≡ true) ⊎ (is_ending m ≡ true) ⊎ (is_triggering h ≡ true)

record Guarded (s : Threads) : Type 0 where
  stopping : Stopping s.matter
  triggering : Triggering s.shell
  will_stop : WillStop s.led s.matter s.shell

matter-Guarded :
    (s s' : Led) (m m' h : At)
    → Move s m s' m'
    → Stopping m
    → WillStop s m h
    → Stopping m' × WillStop s' m' h
matter-Guarded s s' m m' h stops_timer st w = absurd st
matter-Guarded s s' m m' h clears st w = absurd st
matter-Guarded s s' m m' h starts_timer st w = absurd st
matter-Guarded s s' m m' h starts_timer_triggered st w = absurd st
matter-Guarded s s' m m' h auto_stops st w = absurd st
matter-Guarded s s' m m' h ends_stop_timer st w = (tt, λ e. inr (inl refl))
matter-Guarded s s' m m' h ends_blink_timer st w = (tt, λ e. absurd (false≢true e))
matter-Guarded s s' m m' h turns_off st w = (tt, w)

shell-Guarded :
    (s s' : Led) (m h h' : At)
    → Move s h s' h'
    → Triggering h
    → WillStop s m h
    → Triggering h' × WillStop s' m h'
shell-Guarded s s' m h h' (stops_timer {b = true}) st w = (tt, λ e. inr (inr refl))
shell-Guarded s s' m h h' (stops_timer {b = false}) st w = absurd st
shell-Guarded s s' m h h' (clears {b = true}) st w = (tt, λ e. inr (inr refl))
shell-Guarded s s' m h h' (clears {b = false}) st w = absurd st
shell-Guarded s s' m h h' starts_timer st w = absurd st
shell-Guarded s s' m h h' starts_timer_triggered st w = (tt, λ e. inr (inr refl))
shell-Guarded s s' m h h' auto_stops st w = (tt, λ e. inl refl)
shell-Guarded s s' m h h' ends_stop_timer st w = absurd st
shell-Guarded s s' m h h' ends_blink_timer st w = absurd st
shell-Guarded s s' m h h' turns_off st w = absurd st

LedStep-Guarded :
    {s s' : Threads} (step : LedStep s s') → NoIdentifyStart s s' step → Guarded s → Guarded s'
unfolding blink_timer_fn stop_timer_fn
LedStep-Guarded (identify_start free) ok g = absurd ok
LedStep-Guarded {s = s} (identify_stop free) ok g = record {
  stopping = tt;
  triggering = g.triggering;
  will_stop = rw free at (g.will_stop);
}
LedStep-Guarded (shell_trigger free) ok g = record {
  stopping = g.stopping;
  triggering = tt;
  will_stop = λ e. inr (inr refl);
}
LedStep-Guarded {s = s} (matter_moves {led = led} {at = at} move) ok g =
    let (st, w) = matter-Guarded s.led led s.matter at s.shell move g.stopping g.will_stop in
    record { stopping = st; triggering = g.triggering; will_stop = w }
LedStep-Guarded {s = s} (shell_moves {led = led} {at = at} move) ok g =
    let (tr, w) = shell-Guarded s.led led s.matter s.shell at move g.triggering g.will_stop in
    record { stopping = g.stopping; triggering = tr; will_stop = w }
LedStep-Guarded (blink_expires e) ok g = record {
  stopping = g.stopping;
  triggering = g.triggering;
  will_stop = g.will_stop;
}
LedStep-Guarded (stop_expires e) ok g = record {
  stopping = g.stopping;
  triggering = g.triggering;
  will_stop = λ f. absurd (false≢true f);
}
LedStep-Guarded (work_runs e f) ok g = record {
  stopping = g.stopping;
  triggering = g.triggering;
  will_stop = g.will_stop;
}
LedStep-Guarded (toggles e) ok g = record {
  stopping = g.stopping;
  triggering = g.triggering;
  will_stop = g.will_stop;
}
LedStep-Guarded (shows e) ok g = record {
  stopping = g.stopping;
  triggering = g.triggering;
  will_stop = g.will_stop;
}

-- The state after `identify_led_init`: no thread is in a function of the file.
abbrev pub at_init : Threads
at_init = record { led = initial; matter = idle; shell = idle; worker = resting }

Runs-Guarded : {s : Threads} → Runs NoIdentifyStart at_init s → Guarded s
Runs-Guarded start = record {
  stopping = tt;
  triggering = tt;
  will_stop = λ e. absurd (false≢true e);
}
Runs-Guarded (next r step ok) = LedStep-Guarded step ok (Runs-Guarded r)

-- If the Matter thread starts no identifying, then after any interleaving of the statements of
-- the shell's triggers, the stops, the timers and the work item, with both threads out of these functions,
-- the blink timer runs only while the stop timer does, which will end it.
pub Runs-will_stop :
    {s : Threads}
    → Runs NoIdentifyStart at_init s
    → s.matter ≡ idle
    → s.shell ≡ idle
    → s.led.blink_timer ≡ true
    → s.led.stop_timer ≡ true
Runs-will_stop {s = s} r m h e = elim (rw (m, h) at ((Runs-Guarded r).will_stop) e) [
  | inl runs ↦ runs
  | inr rest ↦ elim rest [ inl f ↦ absurd (false≢true f) | inr f ↦ absurd (false≢true f) ]
]
