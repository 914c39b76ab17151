-- ===== src/ShellCommands/Tuning.antt =====
-- The shell commands `ac cfar` and `ac threshold` of src/shell_commands.cpp over the detector. What
-- `atof` makes of an argument, the comparison with 0, what
-- a float is printed as in a format, and the driver's statuses are arguments.
use Prim.Native.String.{String}
use shirokumakun_matter.Common.{
  ◌≡◌, refl, ap, Bool, true, false, Option, none, some, List, if◌then◌else◌,
}
use shirokumakun_matter.Common.Int.{ℤ, pos, negsuc, is_zero, is_negative}
use shirokumakun_matter.PdmManager.{Floats, Pdm, verbose_start, verbose_stop}
use shirokumakun_matter.PdmManager.Settings.{
  Setting, Microphone, Answers, Persists, save_threshold, reset, pdm_manager_init,
  save_threshold-pdm_manager_init,
}

-- The tests on `argv[1]` are the constructors.
pub data CfarArg : Type 0 where
  on off : CfarArg
  other : CfarArg

-- What a command prints, with the text of the float in it.
pub data Printed : Type 0 where
  help : Printed
  usage : Printed
  verbose_on : String → Printed
  verbose_off : Printed
  printed_threshold : String → Printed
  must_be_positive : Printed
  set_and_saved : String → Printed

abbrev einval : ℤ
einval = negsuc 21

-- A command's new state, what it prints and what it returns.
pub record Outcome (S : Type 0) : Type 0 where
  pub state : S
  pub printed : Printed
  pub code : ℤ

module _ (floats : Floats) (format : String → floats.F → String) where
  -- `cmd_cfar`; `none` is a call with fewer than two arguments.
  unfoldable pub cmd_cfar : Option CfarArg → ℤ → Pdm floats → Outcome (Pdm floats)
  cmd_cfar none status p = record { state = p; printed = help; code = pos 0 }
  cmd_cfar (some on) status p = record {
    state = verbose_start floats status p;
    printed = verbose_on (format "%.1f" (verbose_start floats status p).detect_threshold);
    code = pos 0;
  }
  cmd_cfar (some off) status p = record {
    state = verbose_stop floats status p;
    printed = verbose_off;
    code = pos 0;
  }
  cmd_cfar (some other) status p = record { state = p; printed = usage; code = einval }

module _ {F S : Type 0} (le_zero : F → Bool) (format : String → F → String)
    (settings_save_one : String → F → S → S × ℤ)
    (settings_of : S → String → String → List (Setting F)) where
  -- `cmd_threshold` on the stored settings and the microphone: `none` is a call without a value,
  -- else the value is what `atof` gives, as a float.
  unfoldable pub cmd_threshold : Option F → S × Microphone F → Outcome (S × Microphone F)
  cmd_threshold none (store, p) = record {
    state = (store, p);
    printed = printed_threshold (format "%.1f" p.detect_threshold);
    code = pos 0;
  }
  cmd_threshold (some t) (store, p) =
      if le_zero t
      then record { state = (store, p); printed = must_be_positive; code = einval }
      else record {
        state = save_threshold settings_save_one settings_of t store p;
        printed = set_and_saved (format "%.6f" t);
        code = pos 0;
      }

  -- What `ac threshold` prints.
  abbrev pub asked : S × Microphone F → Printed
  asked w = (cmd_threshold none w).printed

  -- A value that is at most 0 is refused, and `ac threshold` prints what it printed before.
  cmd_threshold_refused :
      (t : F) (w : S × Microphone F)
      → le_zero t ≡ true
      → ((cmd_threshold (some t) w).code ≡ einval)
        × (asked (cmd_threshold (some t) w).state ≡ asked w)
  unfolding cmd_threshold
  cmd_threshold_refused t w h = rw h (refl, refl)

  -- If the settings keep what is saved under "pdm" and "threshold", then after `ac threshold` with a
  -- value that is not at most 0, whose save succeeds, `ac threshold` prints that value as "%.1f"
  -- does, and it does again after a reset once `pdm_manager_init` gets past the microphone's pin and
  -- driver.
  pub cmd_threshold-asked :
      Persists settings_save_one settings_of "pdm" "threshold"
      → (t default_threshold : F) (store : S) (p : Microphone F) (a : Answers)
      → is_zero (settings_save_one "pdm/threshold" t store).1 ≡ true
      → a.gpio_ready ≡ true
      → is_zero a.configure ≡ true
      → is_negative a.driver ≡ false
      → le_zero t ≡ false
      → let (store', p') = (cmd_threshold (some t) (store, p)).state in
        (asked (store', p') ≡ printed_threshold (format "%.1f" t))
        × (asked (store', pdm_manager_init a (settings_of store') (reset default_threshold))
            ≡ printed_threshold (format "%.1f" t))
  unfolding cmd_threshold
  cmd_threshold-asked keeps t default_threshold store p a saved gpio pin driver positive =
      let kept =
        save_threshold-pdm_manager_init settings_save_one settings_of keeps t default_threshold
          store p a saved gpio pin driver in
      let shows : F → Printed = λ t. printed_threshold (format "%.1f" t) in
      rw positive (ap shows kept.0, ap shows kept.1)
