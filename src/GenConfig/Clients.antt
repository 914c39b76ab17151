-- ===== src/GenConfig/Clients.antt =====
-- The endpoint counts of the clients of src/zap-generated/gen_config.h.
use shirokumakun_matter.Common.{List, [], ◌∷◌}
use shirokumakun_matter.GenConfig.Types.{Count, count_entry}

-- `MATTER_DM_*_CLUSTER_CLIENT_ENDPOINT_COUNT`.
abbrev pub client_endpoint_counts : List Count
client_endpoint_counts =
    count_entry "IDENTIFY" 1
    ∷ count_entry "GROUPS" 0
    ∷ count_entry "ON_OFF" 0
    ∷ count_entry "LEVEL_CONTROL" 0
    ∷ count_entry "PWM" 0
    ∷ count_entry "DESCRIPTOR" 0
    ∷ count_entry "BINDING" 0
    ∷ count_entry "ACCESS_CONTROL" 0
    ∷ count_entry "ACTIONS" 0
    ∷ count_entry "BASIC_INFORMATION" 0
    ∷ count_entry "OTA_SOFTWARE_UPDATE_PROVIDER" 0
    ∷ count_entry "OTA_SOFTWARE_UPDATE_REQUESTOR" 0
    ∷ count_entry "LOCALIZATION_CONFIGURATION" 0
    ∷ count_entry "TIME_FORMAT_LOCALIZATION" 0
    ∷ count_entry "UNIT_LOCALIZATION" 0
    ∷ count_entry "POWER_SOURCE_CONFIGURATION" 0
    ∷ count_entry "POWER_SOURCE" 0
    ∷ count_entry "GENERAL_COMMISSIONING" 0
    ∷ count_entry "NETWORK_COMMISSIONING" 0
    ∷ count_entry "DIAGNOSTIC_LOGS" 0
    ∷ count_entry "GENERAL_DIAGNOSTICS" 0
    ∷ count_entry "SOFTWARE_DIAGNOSTICS" 0
    ∷ count_entry "THREAD_NETWORK_DIAGNOSTICS" 0
    ∷ count_entry "WIFI_NETWORK_DIAGNOSTICS" 0
    ∷ count_entry "ETHERNET_NETWORK_DIAGNOSTICS" 0
    ∷ count_entry "TIME_SYNCHRONIZATION" 0
    ∷ count_entry "BRIDGED_DEVICE_BASIC_INFORMATION" 0
    ∷ count_entry "SWITCH" 0
    ∷ count_entry "ADMINISTRATOR_COMMISSIONING" 0
    ∷ count_entry "OPERATIONAL_CREDENTIALS" 0
    ∷ count_entry "GROUP_KEY_MANAGEMENT" 0
    ∷ count_entry "FIXED_LABEL" 0
    ∷ count_entry "USER_LABEL" 0
    ∷ count_entry "PROXY_CONFIGURATION" 0
    ∷ count_entry "PROXY_DISCOVERY" 0
    ∷ count_entry "PROXY_VALID" 0
    ∷ count_entry "BOOLEAN_STATE" 0
    ∷ count_entry "ICD_MANAGEMENT" 0
    ∷ count_entry "TIMER" 0
    ∷ count_entry "OPERATIONAL_STATE_OVEN" 0
    ∷ count_entry "OVEN_MODE" 0
    ∷ count_entry "LAUNDRY_DRYER_CONTROLS" 0
    ∷ count_entry "MODE_SELECT" 0
    ∷ count_entry "LAUNDRY_WASHER_MODE" 0
    ∷ count_entry "REFRIGERATOR_AND_TEMPERATURE_CONTROLLED_CABINET_MODE" 0
    ∷ count_entry "LAUNDRY_WASHER_CONTROLS" 0
    ∷ count_entry "RVC_RUN_MODE" 0
    ∷ count_entry "RVC_CLEAN_MODE" 0
    ∷ count_entry "TEMPERATURE_CONTROL" 0
    ∷ count_entry "REFRIGERATOR_ALARM" 0
    ∷ count_entry "DISHWASHER_MODE" 0
    ∷ count_entry "AIR_QUALITY" 0
    ∷ count_entry "SMOKE_CO_ALARM" 0
    ∷ count_entry "DISHWASHER_ALARM" 0
    ∷ count_entry "MICROWAVE_OVEN_MODE" 0
    ∷ count_entry "MICROWAVE_OVEN_CONTROL" 0
    ∷ count_entry "OPERATIONAL_STATE" 0
    ∷ count_entry "OPERATIONAL_STATE_RVC" 0
    ∷ count_entry "SCENES" 0
    ∷ count_entry "GROUPCAST" 0
    ∷ count_entry "HEPA_FILTER_MONITORING" 0
    ∷ count_entry "ACTIVATED_CARBON_FILTER_MONITORING" 0
    ∷ count_entry "WATER_TANK_LEVEL_MONITORING" 0
    ∷ count_entry "BOOLEAN_STATE_CONFIGURATION" 0
    ∷ count_entry "VALVE_CONFIGURATION_AND_CONTROL" 0
    ∷ count_entry "ELECTRICAL_POWER_MEASUREMENT" 0
    ∷ count_entry "ELECTRICAL_ENERGY_MEASUREMENT" 0
    ∷ count_entry "WATER_HEATER_MANAGEMENT" 0
    ∷ count_entry "COMMODITY_PRICE" 0
    ∷ count_entry "MESSAGES" 0
    ∷ count_entry "DEVICE_ENERGY_MANAGEMENT" 0
    ∷ count_entry "ENERGY_EVSE" 0
    ∷ count_entry "ENERGY_PREFERENCE" 0
    ∷ count_entry "POWER_TOPOLOGY" 0
    ∷ count_entry "ENERGY_EVSE_MODE" 0
    ∷ count_entry "WATER_HEATER_MODE" 0
    ∷ count_entry "DEVICE_ENERGY_MANAGEMENT_MODE" 0
    ∷ count_entry "ELECTRICAL_GRID_CONDITIONS" 0
    ∷ count_entry "DOOR_LOCK" 0
    ∷ count_entry "WINDOW_COVERING" 0
    ∷ count_entry "CLOSURE_CONTROL" 0
    ∷ count_entry "CLOSURE_DIMENSION" 0
    ∷ count_entry "SERVICE_AREA" 0
    ∷ count_entry "PUMP_CONFIGURATION_AND_CONTROL" 0
    ∷ count_entry "THERMOSTAT" 0
    ∷ count_entry "FAN_CONTROL" 0
    ∷ count_entry "THERMOSTAT_USER_INTERFACE_CONFIGURATION" 0
    ∷ count_entry "COLOR_CONTROL" 0
    ∷ count_entry "BALLAST_CONFIGURATION" 0
    ∷ count_entry "ILLUMINANCE_MEASUREMENT" 0
    ∷ count_entry "TEMPERATURE_MEASUREMENT" 1
    ∷ count_entry "PRESSURE_MEASUREMENT" 0
    ∷ count_entry "FLOW_MEASUREMENT" 0
    ∷ count_entry "RELATIVE_HUMIDITY_MEASUREMENT" 0
    ∷ count_entry "OCCUPANCY_SENSING" 0
    ∷ count_entry "CARBON_MONOXIDE_CONCENTRATION_MEASUREMENT" 0
    ∷ count_entry "CARBON_DIOXIDE_CONCENTRATION_MEASUREMENT" 0
    ∷ count_entry "NITROGEN_DIOXIDE_CONCENTRATION_MEASUREMENT" 0
    ∷ count_entry "OZONE_CONCENTRATION_MEASUREMENT" 0
    ∷ count_entry "PM2_5_CONCENTRATION_MEASUREMENT" 0
    ∷ count_entry "FORMALDEHYDE_CONCENTRATION_MEASUREMENT" 0
    ∷ count_entry "PM1_CONCENTRATION_MEASUREMENT" 0
    ∷ count_entry "PM10_CONCENTRATION_MEASUREMENT" 0
    ∷ count_entry "TVOC_CONCENTRATION_MEASUREMENT" 0
    ∷ count_entry "RADON_CONCENTRATION_MEASUREMENT" 0
    ∷ count_entry "SOIL_MEASUREMENT" 0
    ∷ count_entry "WIFI_NETWORK_MANAGEMENT" 0
    ∷ count_entry "THREAD_BORDER_ROUTER_MANAGEMENT" 0
    ∷ count_entry "THREAD_NETWORK_DIRECTORY" 0
    ∷ count_entry "WAKE_ON_LAN" 0
    ∷ count_entry "CHANNEL" 0
    ∷ count_entry "TARGET_NAVIGATOR" 0
    ∷ count_entry "MEDIA_PLAYBACK" 0
    ∷ count_entry "MEDIA_INPUT" 0
    ∷ count_entry "LOW_POWER" 0
    ∷ count_entry "KEYPAD_INPUT" 0
    ∷ count_entry "CONTENT_LAUNCHER" 0
    ∷ count_entry "AUDIO_OUTPUT" 0
    ∷ count_entry "APPLICATION_LAUNCHER" 0
    ∷ count_entry "APPLICATION_BASIC" 0
    ∷ count_entry "ACCOUNT_LOGIN" 0
    ∷ count_entry "CONTENT_CONTROL" 0
    ∷ count_entry "CONTENT_APP_OBSERVER" 0
    ∷ count_entry "ZONE_MANAGEMENT" 0
    ∷ count_entry "CAMERA_AV_STREAM_MANAGEMENT" 0
    ∷ count_entry "CAMERA_AV_SETTINGS_USER_LEVEL_MANAGEMENT" 0
    ∷ count_entry "WEB_RTC_TRANSPORT_PROVIDER" 0
    ∷ count_entry "WEB_RTC_TRANSPORT_REQUESTOR" 0
    ∷ count_entry "PUSH_AV_STREAM_TRANSPORT" 0
    ∷ count_entry "CHIME" 0
    ∷ count_entry "COMMODITY_TARIFF" 0
    ∷ count_entry "ECOSYSTEM_INFORMATION" 0
    ∷ count_entry "COMMISSIONER_CONTROL" 0
    ∷ count_entry "JOINT_FABRIC_DATASTORE" 0
    ∷ count_entry "JOINT_FABRIC_ADMINISTRATOR" 0
    ∷ count_entry "TLS_CERTIFICATE_MANAGEMENT" 0
    ∷ count_entry "TLS_CLIENT_MANAGEMENT" 0
    ∷ count_entry "METER_IDENTIFICATION" 0
    ∷ count_entry "COMMODITY_METERING" 0
    ∷ count_entry "UNIT_TESTING" 0
    ∷ count_entry "FAULT_INJECTION" 0
    ∷ count_entry "SAMPLE_MEI" 0
    ∷ []
