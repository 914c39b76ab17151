-- ===== src/DataModel/DeviceClusters.antt =====
-- The clusters of endpoint 1, from src/zap-generated/endpoint_config.h.
use shirokumakun_matter.Common.{[], ◌∷◌, none, some}
use shirokumakun_matter.DataModel.Types.{
  Cluster, server, client, init_function, shutdown_function, attribute_changed_function,
  pre_attribute_changed_function, chip_func_array_fan_control_server, chip_func_array_groups_server,
  chip_func_array_on_off_server, chip_func_array_thermostat_server,
}

abbrev pub identify_client_1 : Cluster
identify_client_1 = record {
  cluster_id = 0x3;
  attributes = 150;
  attribute_count = 0;
  cluster_size = 0;
  mask = client ∷ [];
  functions = none;
  accepted_command_list = none;
  generated_command_list = none;
  event_list = none;
  event_count = 0;
}

abbrev pub identify_server_1 : Cluster
identify_server_1 = record {
  cluster_id = 0x3;
  attributes = 150;
  attribute_count = 4;
  cluster_size = 0;
  mask = server ∷ [];
  functions = none;
  accepted_command_list = some 56;
  generated_command_list = none;
  event_list = none;
  event_count = 0;
}

abbrev pub groups_server_1 : Cluster
groups_server_1 = record {
  cluster_id = 0x4;
  attributes = 154;
  attribute_count = 3;
  cluster_size = 7;
  mask = server ∷ init_function ∷ [];
  functions = some chip_func_array_groups_server;
  accepted_command_list = some 58;
  generated_command_list = some 65;
  event_list = none;
  event_count = 0;
}

abbrev pub on_off_server_1 : Cluster
on_off_server_1 = record {
  cluster_id = 0x6;
  attributes = 157;
  attribute_count = 7;
  cluster_size = 13;
  mask = server ∷ init_function ∷ shutdown_function ∷ [];
  functions = some chip_func_array_on_off_server;
  accepted_command_list = some 70;
  generated_command_list = none;
  event_list = none;
  event_count = 0;
}

abbrev pub descriptor_server_1 : Cluster
descriptor_server_1 = record {
  cluster_id = 0x1D;
  attributes = 164;
  attribute_count = 6;
  cluster_size = 0;
  mask = server ∷ [];
  functions = none;
  accepted_command_list = none;
  generated_command_list = none;
  event_list = none;
  event_count = 0;
}

abbrev pub binding_server_1 : Cluster
binding_server_1 = record {
  cluster_id = 0x1E;
  attributes = 170;
  attribute_count = 3;
  cluster_size = 0;
  mask = server ∷ [];
  functions = none;
  accepted_command_list = none;
  generated_command_list = none;
  event_list = none;
  event_count = 0;
}

abbrev pub thermostat_server_1 : Cluster
thermostat_server_1 = record {
  cluster_id = 0x201;
  attributes = 173;
  attribute_count = 17;
  cluster_size = 31;
  mask =
      server ∷ init_function ∷ attribute_changed_function ∷ shutdown_function
      ∷ pre_attribute_changed_function ∷ [];
  functions = some chip_func_array_thermostat_server;
  accepted_command_list = some 74;
  generated_command_list = none;
  event_list = none;
  event_count = 0;
}

abbrev pub fan_control_server_1 : Cluster
fan_control_server_1 = record {
  cluster_id = 0x202;
  attributes = 190;
  attribute_count = 14;
  cluster_size = 18;
  mask = server ∷ attribute_changed_function ∷ pre_attribute_changed_function ∷ [];
  functions = some chip_func_array_fan_control_server;
  accepted_command_list = some 76;
  generated_command_list = none;
  event_list = none;
  event_count = 0;
}

abbrev pub temperature_measurement_client_1 : Cluster
temperature_measurement_client_1 = record {
  cluster_id = 0x402;
  attributes = 204;
  attribute_count = 0;
  cluster_size = 0;
  mask = client ∷ [];
  functions = none;
  accepted_command_list = none;
  generated_command_list = none;
  event_list = none;
  event_count = 0;
}
