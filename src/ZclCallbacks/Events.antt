-- ===== src/ZclCallbacks/Events.antt =====
-- A whole run of the attribute callbacks of src/zcl_callbacks.cpp after `zcl_callbacks_ready`,
-- against the list of states that the air conditioner ought to be told of.
use mathlib.Core.Path.{ap₂}
use mathlib.Core.Logic.{ite, if_pos, if_neg}
use native.Mathlib.Decide.{ℕ_discrete}
use shirokumakun_matter.Common.{
  ◌≡◌, refl, ◌∙◌, ◌≢◌, ◌&&◌, Bool, true, false, Option, none, some, List, [], ◌∷◌, map, arith, ◌==◌,
  if◌then◌else◌, Bool-cases, inl, inr,
}
use shirokumakun_matter.IrProtocol.{AcMode, FanSpeed, AcState}
use shirokumakun_matter.IrProtocol.RoundTrip.{sent_mode}
use shirokumakun_matter.ZclCallbacks.{
  Attributes, ac_state_of, Zcl, Command, Cluster, on_off, other, on_cluster, AttributePath,
  post_attribute_change, send_ir_if_changed, zcl_callbacks_ready,
}
use shirokumakun_matter.ZclCallbacks.Desired.{IsSendable, ac_state_of-IsSendable}
use shirokumakun_matter.ZclCallbacks.Requested.{requested, ac_state_of-requested}
use shirokumakun_matter.ZclCallbacks.Send.{
  heard, IsValid, after, command_of, heard-command_of, after-IsValid, zcl_callbacks_ready-IsValid,
  send_same, send_changed,
}

-- A change that the Matter stack reports, with the attributes as they are at that time.
pub record Event : Type 0 where
  pub path : AttributePath
  pub attributes : Attributes

abbrev pub cons_some {ℓ} : {A : Type ℓ} → Option A → List A → List A
cons_some none l = l
cons_some (some a) l = a ∷ l

-- The callbacks in order, with the commands that they dispatch.
unfoldable pub run : List Event → Zcl → Option (Zcl × List Command)
run [] z = some (z, [])
run (e ∷ es) z = elim (post_attribute_change e.path e.attributes z) [
  | none ↦ none
  | some (z', command) ↦ elim (run es z') [
    | none ↦ none
    | some (z'', commands) ↦ some (z'', cons_some command commands)
  ]
]

abbrev is_watched : Cluster → Bool
is_watched other = false
is_watched _ = true

pub asks : AttributePath → Bool
asks path = path.endpoint_id == 1 && is_watched path.cluster_id

-- The states asked for: what the attributes ask for at each event on the watched clusters of
-- endpoint 1.
pub wanted : List Event → List AcState
wanted [] = []
wanted (e ∷ es) =
    let rest = wanted es in if asks e.path then requested e.attributes ∷ rest else rest

AcMode-discrete : Discrete AcMode
AcMode-discrete = hlevel

FanSpeed-discrete : Discrete FanSpeed
FanSpeed-discrete = hlevel

AcState-discrete : Discrete AcState
AcState-discrete = hlevel ℕ_discrete

-- The states that differ from the one before.
pub changes : AcState → List AcState → List AcState
changes last [] = []
changes last (s ∷ ss) = ite (AcState-discrete s last) (changes last ss) (s ∷ changes s ss)

pub last_of : AcState → List AcState → AcState
last_of last [] = last
last_of last (s ∷ ss) = last_of s ss

abbrev pub told : AcState → Option AcState
told s = some (record s { mode = sent_mode s })

-- What a run from `z` on the wanted states `ss` comes to.
pub record Runs (z : Zcl) (ss : List AcState) (result : Option (Zcl × List Command)) : Type 0 where
  pub end : Zcl
  pub commands : List Command
  pub returns : result ≡ some (end, commands)
  pub hears : map heard commands ≡ map told (changes z.last_sent ss)
  pub remembers : end.last_sent ≡ last_of z.last_sent ss

-- After start-up the state recorded is one that may be sent.
record IsReady (z : Zcl) : Type 0 where
  valid : IsValid z
  ready : z.ir_ready ≡ true
  recorded : z.last_sent_valid ≡ true

after-IsReady : (s : AcState) (z : Zcl) → IsSendable s → IsReady z → IsReady (after s z)
unfolding after
after-IsReady s z ok r = record {
  valid = after-IsValid s z ok r.valid;
  ready = r.ready;
  recorded = refl;
}

on_cluster-watched :
    (c : Cluster) (a : Attributes) (z : Zcl)
    → on_cluster c a z ≡ (if is_watched c then send_ir_if_changed a z else some (z, none))
unfolding on_cluster
on_cluster-watched on_off a z = refl
on_cluster-watched _ a z = refl

-- An event that asks for nothing changes nothing and sends nothing; any other is handed on.
pub post_attribute_change-asks :
    (path : AttributePath) (a : Attributes) (z : Zcl)
    → post_attribute_change path a z
      ≡ (if asks path then send_ir_if_changed a z else some (z, none))
unfolding post_attribute_change asks
post_attribute_change-asks path a z = ground (arith, on_cluster-watched path.cluster_id a z)

Runs-quiet :
    (e : Event) (es : List Event) (z : Zcl) (ss : List AcState)
    → post_attribute_change e.path e.attributes z ≡ some (z, none)
    → Runs z ss (run es z)
    → Runs z ss (run (e ∷ es) z)
unfolding run
Runs-quiet e es z ss quiet r = record {
  end = r.end;
  commands = r.commands;
  returns = rw (quiet, run) (rw (r.returns, run));
  hears = r.hears;
  remembers = r.remembers;
}

Runs-sent :
    (e : Event) (es : List Event) (z : Zcl) (s : AcState) (ss : List AcState)
    → IsSendable s
    → s ≢ z.last_sent
    → post_attribute_change e.path e.attributes z ≡ some (after s z, some (command_of s z))
    → Runs (after s z) ss (run es (after s z))
    → Runs z (s ∷ ss) (run (e ∷ es) z)
unfolding run after changes last_of
Runs-sent e es z s ss ok differs sent r = record {
  end = r.end;
  commands = command_of s z ∷ r.commands;
  returns = rw (sent, run) (rw (r.returns, run));
  hears =
      rw (if_neg (AcState-discrete s z.last_sent) differs)
        (ap₂ ◌∷◌ (heard-command_of s z ok) r.hears);
  remembers = r.remembers;
}

Runs-same :
    (z : Zcl) (s : AcState) (ss : List AcState) {result : Option (Zcl × List Command)}
    → s ≡ z.last_sent
    → Runs z ss result
    → Runs z (s ∷ ss) result
unfolding changes last_of
Runs-same z s ss same r = record {
  end = r.end;
  commands = r.commands;
  returns = r.returns;
  hears = rw (if_pos (AcState-discrete s z.last_sent) same) r.hears;
  remembers = rw same r.remembers;
}

-- One event that asks for `ac_state_of e.attributes`, given the run from each state it can leave.
Runs-asked :
    (e : Event) (es : List Event) (z : Zcl) (ss : List AcState)
    → IsReady z
    → asks e.path ≡ true
    → ((z' : Zcl) → IsReady z' → Runs z' ss (run es z'))
    → Runs z (ac_state_of e.attributes ∷ ss) (run (e ∷ es) z)
Runs-asked e es z ss r asked rest = elim (AcState-discrete (ac_state_of e.attributes) z.last_sent) [
  | yes same ↦
      Runs-same z (ac_state_of e.attributes) ss same
        (Runs-quiet e es z ss (hands_on ∙ send_same e.attributes z r.recorded same) (rest z r))
  | no differs ↦
      Runs-sent e es z (ac_state_of e.attributes) ss sendable differs
        (hands_on ∙ send_changed e.attributes z r.valid r.ready differs)
        (rest (after (ac_state_of e.attributes) z) (after-IsReady _ z sendable r))
]
  where
    sendable : IsSendable (ac_state_of e.attributes)
    sendable = ac_state_of-IsSendable e.attributes

    hands_on : post_attribute_change e.path e.attributes z ≡ send_ir_if_changed e.attributes z
    hands_on = post_attribute_change-asks e.path e.attributes z ∙ rw asked

run-Runs : (es : List Event) (z : Zcl) → IsReady z → Runs z (wanted es) (run es z)
unfolding wanted
run-Runs [] z r =
    unfold run changes last_of in
    record { end = z; commands = []; returns = refl; hears = refl; remembers = refl }
run-Runs (e ∷ es) z r = elim (Bool-cases (asks e.path)) [
  | inl asked ↦ rw asked (
      rw (← ac_state_of-requested e.attributes)
        (Runs-asked e es z (wanted es) r asked (run-Runs es)))
  | inr ignored ↦ rw ignored (
      Runs-quiet e es z (wanted es) (post_attribute_change-asks e.path e.attributes z ∙ rw ignored)
        (run-Runs es z r))
]

-- From start-up, whatever was there before and whatever changes are reported after, no callback
-- goes wrong. The state at start-up is the one that the attributes ask for. The commands dispatched
-- are one for each state asked for that differs from the one before, the first of them from the
-- state at start-up, in order; the air conditioner reads that state from it, the mode of an off
-- command being heating. The state recorded is the last one asked for.
pub zcl_callbacks_ready-run :
    (a : Attributes) (es : List Event) (z : Zcl)
    → IsValid z
    → ((zcl_callbacks_ready a z).last_sent ≡ requested a)
      × Runs (zcl_callbacks_ready a z) (wanted es) (run es (zcl_callbacks_ready a z))
unfolding zcl_callbacks_ready
zcl_callbacks_ready-run a es z v = (
  ac_state_of-requested a,
  run-Runs es (zcl_callbacks_ready a z)
      (record { valid = zcl_callbacks_ready-IsValid a z v; ready = refl; recorded = refl }),
)
