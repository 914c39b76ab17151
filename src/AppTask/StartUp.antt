-- ===== src/AppTask/StartUp.antt =====
-- What the start-up of src/app_task.cpp and src/main.cpp comes to.
use shirokumakun_matter.Common.{◌≡◌, inl, inr, true, false, List, [], ◌∷◌, Option, some, Bool-cases}
use shirokumakun_matter.Common.Int.{is_zero}
use shirokumakun_matter.ZclCallbacks.{Attributes, Zcl, zcl_callbacks_ready}
use shirokumakun_matter.ZclCallbacks.Events.{Event}
use shirokumakun_matter.ZclCallbacks.Quiet.{run_not_ready}
use shirokumakun_matter.AppTask.{
  Stage, hw_pairing_init, prepare_server, start_server, register, ir_driver_init,
  scd40_manager_init, pdm_manager_init, callbacks_ready, Statuses, Boot, mark, init_components,
  start_matter, init, Run, serves, exits, main,
}

abbrev pub cold : Zcl → Boot
cold z = record { zcl = z; dispatched = []; stages = [] }

abbrev pub all_stages : List Stage
all_stages =
    hw_pairing_init
    ∷ prepare_server
    ∷ start_server
    ∷ register 1
    ∷ register 2
    ∷ register 3
    ∷ ir_driver_init
    ∷ scd40_manager_init
    ∷ pdm_manager_init
    ∷ callbacks_ready
    ∷ []

-- How a start-up ends.
pub data Ends (st : Statuses) (a : Attributes) (z : Zcl) : Option Run → Type 0 where
  up :
      is_zero st.pairing ≡ true
      → is_zero st.prepare ≡ true
      → is_zero st.start ≡ true
      → Ends st a z (
          some (
            serves
              (record { zcl = zcl_callbacks_ready a z; dispatched = []; stages = all_stages })))
  no_pairing :
      is_zero st.pairing ≡ false
      → Ends st a z (some (exits (record (cold z) { stages = hw_pairing_init ∷ [] }) 1))
  no_prepare :
      is_zero st.pairing ≡ true
      → is_zero st.prepare ≡ false
      → Ends st a z
          (some (exits (record (cold z) { stages = hw_pairing_init ∷ prepare_server ∷ [] }) 1))
  no_start :
      is_zero st.pairing ≡ true
      → is_zero st.prepare ≡ true
      → is_zero st.start ≡ false
      → Ends st a z (
          some (
            exits
              (record (cold z) { stages = hw_pairing_init ∷ prepare_server ∷ start_server ∷ [] })
              1))

-- Whatever attributes the Matter stack restores, a start-up dispatches no command. If the three
-- guarded calls succeed, every component is initialised in order and the callbacks are enabled
-- last; else `main` returns 1 right after the first of the three that failed, with the callbacks
-- as they were.
pub main-Ends :
    (st : Statuses) (restored : List Event) (a : Attributes) (z : Zcl)
    → z.ir_ready ≡ false
    → Ends st a z (main st restored a (cold z))
unfolding main init mark start_matter init_components
main-Ends st restored a z closed =
    rw (run_not_ready restored z closed, main)
      (elim (Bool-cases (is_zero st.pairing)) [
        | inr e ↦ rw (e, e) (no_pairing e)
        | inl pairing ↦ rw pairing (elim (Bool-cases (is_zero st.prepare)) [
          | inr e ↦ rw (e, e) (no_prepare pairing e)
          | inl prepare ↦ rw prepare (elim (Bool-cases (is_zero st.start)) [
            | inr e ↦ rw (e, e) (no_start pairing prepare e)
            | inl start ↦ rw start (up pairing prepare start)
          ])
        ])
      ])
