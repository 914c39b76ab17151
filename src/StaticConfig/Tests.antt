-- ===== src/StaticConfig/Tests.antt =====
-- Tests of the configurations of the clusters, and their theorem at one of them.
use shirokumakun_matter.Common.{◌≡◌, refl, none, map, [], ◌∷◌}
use shirokumakun_matter.StaticConfig.{static_of}
use shirokumakun_matter.StaticConfig.RootServices.{thread_network_diagnostics_config}
use shirokumakun_matter.StaticConfig.DeviceServices.{identify_config, thermostat_config}
use shirokumakun_matter.StaticConfig.Enabled.{IsFaithful, static_of-IsFaithful}

-- No header is there for On/Off, and the one for Identify knows endpoint 1 only.
older_model :
    (static_of 0x6 ≡ none)
    × (map (λ f. f.endpoint_number) identify_config.fixed_cluster_config ≡ 1 ∷ [])
older_model = (refl, refl)

-- Heating, cooling and the mode that chooses by itself.
thermostat_features :
    map (λ f. f.feature_map) thermostat_config.fixed_cluster_config ≡ (1 ∷ 2 ∷ 0x20 ∷ []) ∷ []
thermostat_features = refl

static_of-IsFaithful_example : IsFaithful thread_network_diagnostics_config
static_of-IsFaithful_example = static_of-IsFaithful 0x35 thread_network_diagnostics_config refl
