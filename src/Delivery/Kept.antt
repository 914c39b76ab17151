-- ===== src/Delivery/Kept.antt =====
-- What holds in every state of the system: whose frame is in, or on its way into, the dispatch
-- code's buffer.
use mathlib.Core.Option.{some-injective, none-ne-some}
use shirokumakun_matter.Common.{
  true, ◌≡◌, ◌≢◌, Option, refl, sym, ap, ◌∙◌, none, some, List, length,
}
use shirokumakun_matter.IrProtocol.{IrPulse, ir_max_pulses}
use shirokumakun_matter.IrProtocol.Waveform.{frame}
use shirokumakun_matter.ZclCallbacks.{Attributes, Zcl, Command, zcl_callbacks_ready}
use shirokumakun_matter.ZclCallbacks.Send.{IsValid, zcl_callbacks_ready-IsValid}
use shirokumakun_matter.ShellCommands.{off_state}
use shirokumakun_matter.IrDriver.Dispatch.{
  Call, Fits, Store, Section, unlocked, entered, counted, copied, locked, loading, loaded, Thread,
  Step, lock_pending, store_count, store_pulses, unlock_pending, give, wake, lock_active,
  load_count, load_pulses, unlock_active, send, Reach, start, later, call_pulses,
}
use shirokumakun_matter.IrDriver.Dispatch.History.{newest}
use shirokumakun_matter.IrDriver.Dispatch.Progress.{Inner}
use shirokumakun_matter.Delivery.{
  matter, shell, System, call_of, shell_view, SystemStep, change, ac_off, matter_locks, shell_locks,
  dispatch, booted, Reachable, boot, next,
}
use shirokumakun_matter.Delivery.Callers.{
  Asks, Changed, same, sends, post_attribute_change-Changed, cmd_off-Asks,
}

-- The pulses of the caller that locked the mutex last.
abbrev pub current : Store → Section → List IrPulse
current m (entered cmd) = call_pulses cmd
current m (counted cmd) = call_pulses cmd
current m c = newest m.stored

current_stored : (m m' : Store) (c : Section) → m'.stored ≡ m.stored → current m' c ≡ current m c
current_stored m m' unlocked e = ap newest e
current_stored m m' (entered cmd) e = refl
current_stored m m' (counted cmd) e = refl
current_stored m m' copied e = ap newest e
current_stored m m' locked e = ap newest e
current_stored m m' loading e = ap newest e
current_stored m m' loaded e = ap newest e

Step-current :
    {m m' : Store} {c c' : Section} {t t' : Thread} (step : Step m c t m' c' t')
    → Inner step
    → current m' c' ≡ current m c
Step-current (lock_pending fits) inner = absurd inner
Step-current store_count inner = refl
Step-current store_pulses inner = refl
Step-current unlock_pending inner = refl
Step-current {m = m} {m' = m'} (give {c = c} g) inner = current_stored m m' c refl
Step-current {m = m} {m' = m'} (wake {c = c} g) inner = current_stored m m' c refl
Step-current lock_active inner = refl
Step-current load_count inner = refl
Step-current load_pulses inner = refl
Step-current unlock_active inner = refl
Step-current {m = m} {m' = m'} (send {c = c}) inner = current_stored m m' c refl

pub record Kept (s : System) : Type 0 where
  pub valid : IsValid s.zcl
  pub known : s.zcl.last_sent_valid ≡ true
  pub room : length s.off_pulses ≡ ir_max_pulses
  pub matter_asks : (c : Command) → s.matter_call ≡ some c → Asks s.zcl.last_sent c
  pub shell_asks : (c : Command) → s.shell_call ≡ some c → Asks off_state c
  pub from_matter :
      s.last_caller ≡ some matter
      → s.matter_call ≡ none
      → current s.store s.section ≡ frame s.zcl.last_sent
  pub from_shell : s.last_caller ≡ some shell → current s.store s.section ≡ frame off_state
  pub reach : Reach s.store s.section s.thread

booted-Kept : (a : Attributes) (z : Zcl) → IsValid z → Kept (booted a z)
unfolding zcl_callbacks_ready
booted-Kept a z v = record {
  valid = zcl_callbacks_ready-IsValid a z v;
  known = refl;
  room = refl;
  matter_asks = λ c e. absurd (none-ne-some c e);
  shell_asks = λ c e. absurd (none-ne-some c e);
  from_matter = λ e f. absurd (none-ne-some matter e);
  from_shell = λ e. absurd (none-ne-some shell e);
  reach = start;
}

matter≢shell : matter ≢ shell
matter≢shell e = cc e

Changed-Kept :
    (s : System) (z : Zcl) (call : Option Command)
    → s.matter_call ≡ none
    → Changed s.zcl z call
    → Kept s
    → Kept (record s { zcl = z; matter_call = call })
Changed-Kept s z none free same k = record {
  valid = k.valid;
  known = k.known;
  room = k.room;
  matter_asks = λ c e. absurd (none-ne-some c e);
  shell_asks = k.shell_asks;
  from_matter = λ e f. k.from_matter e free;
  from_shell = k.from_shell;
  reach = k.reach;
}
Changed-Kept s z (some call) free (sends z' call' v known asks) k = record {
  valid = v;
  known = known;
  room = k.room;
  matter_asks = λ c e. rw (← some-injective call c e) asks;
  shell_asks = k.shell_asks;
  from_matter = λ e f. absurd (none-ne-some call (sym f));
  from_shell = k.from_shell;
  reach = k.reach;
}

-- A thread locks the mutex with a call that fits.
Reach-lock :
    (s : System) (cmd : Call)
    → s.section ≡ unlocked
    → Fits cmd
    → Reach s.store s.section s.thread
    → Reach s.store (entered cmd) s.thread
Reach-lock s cmd u fits r = later (rw u at r) (lock_pending fits)

Step-Kept : {s s' : System} → SystemStep s s' → Kept s → Kept s'
Step-Kept {s = s} (change path a free e) k =
    Changed-Kept s _ _ free (post_attribute_change-Changed path a s.zcl k.valid e) k
Step-Kept {s = s} (ac_off {w = w} {call = call} free e d) k =
    let (asks, room) = cmd_off-Asks (shell_view s) w call k.room e d in
    record {
      valid = k.valid;
      known = k.known;
      room = room;
      matter_asks = k.matter_asks;
      shell_asks = λ c f. rw (← some-injective call c f) asks;
      from_matter = k.from_matter;
      from_shell = k.from_shell;
      reach = k.reach;
    }
Step-Kept {s = s} (matter_locks {call = call} e u) k =
    let asks = k.matter_asks call e in
    record {
      valid = k.valid;
      known = k.known;
      room = k.room;
      matter_asks = λ c f. absurd (none-ne-some c f);
      shell_asks = k.shell_asks;
      from_matter = λ f g. asks.framed;
      from_shell = λ f. absurd (matter≢shell (some-injective matter shell f));
      reach = Reach-lock s (call_of call) u asks.fits k.reach;
    }
Step-Kept {s = s} (shell_locks {call = call} e u) k =
    let asks = k.shell_asks call e in
    record {
      valid = k.valid;
      known = k.known;
      room = k.room;
      matter_asks = k.matter_asks;
      shell_asks = λ c f. absurd (none-ne-some c f);
      from_matter = λ f g. absurd (matter≢shell (sym (some-injective shell matter f)));
      from_shell = λ f. asks.framed;
      reach = Reach-lock s (call_of call) u asks.fits k.reach;
    }
Step-Kept {s = s} (dispatch step inner) k = record {
  valid = k.valid;
  known = k.known;
  room = k.room;
  matter_asks = k.matter_asks;
  shell_asks = k.shell_asks;
  from_matter = λ e f. Step-current step inner ∙ k.from_matter e f;
  from_shell = λ e. Step-current step inner ∙ k.from_shell e;
  reach = later k.reach step;
}

pub Reachable-Kept : {a : Attributes} {z : Zcl} {s : System} → IsValid z → Reachable a z s → Kept s
Reachable-Kept {a} {z} v boot = booted-Kept a z v
Reachable-Kept v (next r step) = Step-Kept step (Reachable-Kept v r)
