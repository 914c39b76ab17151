-- ===== src/AppTask.antt =====
-- The start-up of src/app_task.cpp and src/main.cpp: the order of its calls, its error paths, and
-- the attribute callbacks that the Matter stack runs meanwhile. The statuses of the clusters'
-- registration and of the two drivers are only logged, so they are not looked at here.
pub mod StartUp
mod Tests
use shirokumakun_matter.Common.{ℕ, List, [], ◌∷◌, ◌++◌, Option, none, some, not, if◌then◌else◌}
use shirokumakun_matter.Common.Int.{ℤ, pos, is_zero}
use shirokumakun_matter.ZclCallbacks.{Attributes, Zcl, Command, zcl_callbacks_ready}
use shirokumakun_matter.ZclCallbacks.Events.{Event, run}

-- The calls of `AppTask::Init`; `register` names the endpoint.
pub data Stage : Type 0 where
  hw_pairing_init prepare_server start_server : Stage
  register : ℕ → Stage
  ir_driver_init scd40_manager_init pdm_manager_init callbacks_ready : Stage

-- What the three calls that `ReturnErrorOnFailure` guards return; 0 is `CHIP_NO_ERROR`.
pub record Statuses : Type 0 where
  pub pairing : ℤ
  pub prepare : ℤ
  pub start : ℤ

-- The callbacks' variables, the commands they dispatched, and the calls made, in order.
pub record Boot : Type 0 where
  pub zcl : Zcl
  pub dispatched : List Command
  pub stages : List Stage

unfoldable pub mark : Stage → Boot → Boot
mark s b = record b { stages = b.stages ++ s ∷ [] }

-- `AppTask::Init` from the registration of the clusters on.
unfoldable pub init_components : Attributes → Boot → Boot
unfolding mark
init_components a b =
    let b₁ = mark (register 3) (mark (register 2) (mark (register 1) b)) in
    let b₂ = mark pdm_manager_init (mark scd40_manager_init (mark ir_driver_init b₁)) in
    mark callbacks_ready (record b₂ { zcl = zcl_callbacks_ready a b₂.zcl })

-- `StartServer` restores attributes, which it reports as `restored`.
unfoldable pub start_matter : List Event → Boot → Option Boot
unfolding mark
start_matter restored b = elim (run restored b.zcl) [
  | none ↦ none
  | some (z, commands) ↦
      some (mark start_server (record b { zcl = z; dispatched = b.dispatched ++ commands }))
]

-- `AppTask::Init`; `a` are the attributes that it finds at its end.
unfoldable pub init : Statuses → List Event → Attributes → Boot → Option (Boot × ℤ)
unfolding mark start_matter init_components
init st restored a b =
    let b₁ = mark hw_pairing_init b in
    let b₂ = mark prepare_server b₁ in
    if not (is_zero st.pairing)
    then some (b₁, st.pairing)
    else (if not (is_zero st.prepare)
        then some (b₂, st.prepare)
        else (elim (start_matter restored b₂) [
          | none ↦ none
          | some b₃ ↦
              if not (is_zero st.start)
              then some (b₃, st.start)
              else some (init_components a b₃, pos 0)
        ]))

-- How `main` goes on: it dispatches tasks for ever, or returns a status.
pub data Run : Type 0 where
  serves : Boot → Run
  exits : Boot → ℕ → Run

-- `AppTask::StartApp` and `main`; `EXIT_FAILURE` is 1.
unfoldable pub main : Statuses → List Event → Attributes → Boot → Option Run
unfolding init
main st restored a b = elim (init st restored a b) [
  | none ↦ none
  | some (b', err) ↦ some (if is_zero err then serves b' else exits b' 1)
]
