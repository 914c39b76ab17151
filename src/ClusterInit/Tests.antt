-- ===== src/ClusterInit/Tests.antt =====
-- Tests of the switches of the callbacks, and their theorem at a concrete cluster.
use shirokumakun_matter.Common.{◌≡◌, refl, none, some}
use shirokumakun_matter.DataModel.DeviceClusters.{thermostat_server_1}
use shirokumakun_matter.ClusterInit.{thermostat, on_off, ember_cluster_init, app_cluster_init}
use shirokumakun_matter.ClusterInit.Covered.{IsCovered, server_of-IsCovered}

thermostat_called :
    ember_cluster_init 1 0x201 ≡ some (record { callback = thermostat; endpoint = 1 })
thermostat_called = refl

-- The copy under app does not know On/Off.
on_off_missing :
    (app_cluster_init 1 0x6 ≡ none)
    × (ember_cluster_init 1 0x6 ≡ some (record { callback = on_off; endpoint = 1 }))
on_off_missing = (refl, refl)

server_of-IsCovered_example : IsCovered 1 0x201 thermostat_server_1
server_of-IsCovered_example = server_of-IsCovered 1 0x201 thermostat_server_1 refl
