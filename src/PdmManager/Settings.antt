-- ===== src/PdmManager/Settings.antt =====
-- The persisted threshold and `pdm_manager_init` of src/pdm_manager.cpp.
-- Zephyr's settings and the microphone's drivers are arguments. The window of the FFT and the
-- interrupt's wiring have no result that the code looks at, and are left out.
use Prim.Native.String.{String, ◌++◌ as ◌+s+◌}
use text.Mathlib.Text.{◌==◌ as ◌=s=◌}
use shirokumakun_matter.Common.{
  ℕ, ◌≡◌, refl, Bool, true, false, not, List, [], ◌∷◌, ◌++◌, ◌==◌, ◌&&◌, if◌then◌else◌, All,
}
use shirokumakun_matter.Common.Int.{ℤ, is_zero, is_negative}

-- The answers of the drivers at start-up.
pub record Answers : Type 0 where
  pub gpio_ready : Bool
  pub configure : ℤ
  pub driver : ℤ

-- One stored setting, as the handler of a subtree is called for it: `name` is what follows the
-- subtree's name and a slash in its key, and `value` is what `read_cb` copies.
pub record Setting (F : Type 0) : Type 0 where
  pub name : String
  pub len : ℕ
  pub value : F

-- What start-up leaves of the microphone: its pin, the driver, the semaphore and work item, and
-- the threshold.
pub record Microphone (F : Type 0) : Type 0 where
  pub enabled : Bool
  pub driver_ready : Bool
  pub work_ready : Bool
  pub detect_threshold : F

-- The subtree that `SETTINGS_STATIC_HANDLER_DEFINE` registers the handler for.
abbrev handler_subtree : String
handler_subtree = "pdm"

module _ {F : Type 0} where
  -- `pdm_settings_set` on `detect_threshold`; `sizeof(float)` is 4.
  unfoldable pub pdm_settings_set : Setting F → F → F
  pdm_settings_set s current = if s.name =s= "threshold" && s.len == 4 then s.value else current

  -- `settings_load_subtree` calls the handler for each stored setting.
  unfoldable pub load_all : List (Setting F) → F → F
  unfolding pdm_settings_set
  load_all [] current = current
  load_all (s ∷ settings) current = load_all settings (pdm_settings_set s current)

  -- The static variables after a reset, with the threshold that the program starts with.
  abbrev pub reset : F → Microphone F
  reset default_threshold = record {
    enabled = false;
    driver_ready = false;
    work_ready = false;
    detect_threshold = default_threshold;
  }

  -- `pdm_manager_init`, where `settings_of loaded handler` are the settings that loading the subtree
  -- `loaded` shows to the handler of the subtree `handler`; the status of loading the settings is only logged.
  unfoldable pub pdm_manager_init :
      Answers → (String → String → List (Setting F)) → Microphone F → Microphone F
  unfolding load_all
  pdm_manager_init a settings_of p =
      if not a.gpio_ready
      then p
      else (if not (is_zero a.configure)
          then p
          else (if is_negative a.driver then record p { enabled = true } else record {
            enabled = true;
            driver_ready = true;
            work_ready = true;
            detect_threshold = load_all (settings_of "pdm" handler_subtree) p.detect_threshold;
          }))

  module _ {S : Type 0} (settings_save_one : String → F → S → S × ℤ)
      (settings_of : S → String → String → List (Setting F)) where
    -- `pdm_manager_save_threshold`; the status of saving is only logged.
    unfoldable pub save_threshold : F → S → Microphone F → S × Microphone F
    save_threshold t store p =
        ((settings_save_one "pdm/threshold" t store).0, record p { detect_threshold = t })

    -- What Zephyr documents: a float saved with status 0 under a subtree's name, a slash and a name
    -- is shown to the subtree's handler when the subtree is loaded, as the last one of that name.
    pub record Persists (subtree name : String) : Type 0 where
      pub found :
          (t : F) (store : S)
          → is_zero (settings_save_one (subtree +s+ "/" +s+ name) t store).1 ≡ true
          → (before : List (Setting F)) × (after : List (Setting F)) × (settings_of
                (settings_save_one (subtree +s+ "/" +s+ name) t store).0
                subtree
                subtree
              ≡ before ++ record { name = name; len = 4; value = t } ∷ after)
            × All (λ s. (s.name =s= name) ≡ false) after

  load_all-others :
      (settings : List (Setting F)) (current : F)
      → All (λ s. (s.name =s= "threshold") ≡ false) settings
      → load_all settings current ≡ current
  unfolding load_all pdm_settings_set
  load_all-others [] current h = refl
  load_all-others (s ∷ settings) current h = rw h.0 (load_all-others settings current h.1)

  load_all-last :
      (before after : List (Setting F)) (t current : F)
      → All (λ s. (s.name =s= "threshold") ≡ false) after
      → load_all (before ++ record { name = "threshold"; len = 4; value = t } ∷ after) current ≡ t
  unfolding load_all pdm_settings_set
  load_all-last [] after t current h = load_all-others after t h
  load_all-last (s ∷ before) after t current h =
      load_all-last before after t (pdm_settings_set s current) h

  module _ {S : Type 0} (settings_save_one : String → F → S → S × ℤ)
      (settings_of : S → String → String → List (Setting F)) where
    -- If the settings keep what is saved under "pdm" and "threshold", then after
    -- `pdm_manager_save_threshold` whose save succeeds, the threshold is in force at once, and after
    -- a reset it is again once `pdm_manager_init` gets past the microphone's pin and driver.
    pub save_threshold-pdm_manager_init :
        Persists settings_save_one settings_of "pdm" "threshold"
        → (t default_threshold : F) (store : S) (p : Microphone F) (a : Answers)
        → is_zero (settings_save_one "pdm/threshold" t store).1 ≡ true
        → a.gpio_ready ≡ true
        → is_zero a.configure ≡ true
        → is_negative a.driver ≡ false
        → ((save_threshold settings_save_one settings_of t store p).1.detect_threshold ≡ t)
          × ((pdm_manager_init a
                (settings_of (save_threshold settings_save_one settings_of t store p).0)
                (reset default_threshold)).detect_threshold
              ≡ t)
    unfolding save_threshold pdm_manager_init
    save_threshold-pdm_manager_init keeps t default_threshold store p a saved gpio pin driver =
        let (before, after, e, others) = keeps.found t store saved in
        let shows : settings_of (settings_save_one "pdm/threshold" t store).0 "pdm" "pdm"
            ≡ before ++ record { name = "threshold"; len = 4; value = t } ∷ after =
          e in
        (
          refl,
          rw (gpio, pin, driver, shows) (load_all-last before after t default_threshold others),
        )
