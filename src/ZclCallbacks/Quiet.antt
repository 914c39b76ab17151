-- ===== src/ZclCallbacks/Quiet.antt =====
-- Until `zcl_callbacks_ready`, the attribute callbacks of src/zcl_callbacks.cpp do nothing.
use shirokumakun_matter.Common.{◌≡◌, refl, false, List, [], ◌∷◌, none, some, arith}
use shirokumakun_matter.ZclCallbacks.{
  Attributes, Zcl, Cluster, on_off, thermostat, fan_control, other, on_cluster, AttributePath,
  post_attribute_change,
}
use shirokumakun_matter.ZclCallbacks.Send.{send_not_ready}
use shirokumakun_matter.ZclCallbacks.Events.{Event, run}

on_cluster_not_ready :
    (c : Cluster) (a : Attributes) (z : Zcl)
    → z.ir_ready ≡ false
    → on_cluster c a z ≡ some (z, none)
unfolding on_cluster
on_cluster_not_ready on_off a z e = send_not_ready a z e
on_cluster_not_ready thermostat a z e = send_not_ready a z e
on_cluster_not_ready fan_control a z e = send_not_ready a z e
on_cluster_not_ready other a z e = refl

post_not_ready :
    (path : AttributePath) (a : Attributes) (z : Zcl)
    → z.ir_ready ≡ false
    → post_attribute_change path a z ≡ some (z, none)
unfolding post_attribute_change
post_not_ready path a z e = ground (arith, on_cluster_not_ready path.cluster_id a z e)

pub run_not_ready :
    (events : List Event) (z : Zcl) → z.ir_ready ≡ false → run events z ≡ some (z, [])
unfolding run
run_not_ready [] z e = refl
run_not_ready (x ∷ events) z e =
    rw (post_not_ready x.path x.attributes z e, run_not_ready events z e, run) refl
