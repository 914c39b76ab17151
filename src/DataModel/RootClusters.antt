-- ===== src/DataModel/RootClusters.antt =====
-- The clusters of endpoint 0, from src/zap-generated/endpoint_config.h.
use shirokumakun_matter.Common.{[], ◌∷◌, none, some}
use shirokumakun_matter.DataModel.Types.{Cluster, server}

abbrev pub descriptor_server_0 : Cluster
descriptor_server_0 = record {
  cluster_id = 0x1D;
  attributes = 0;
  attribute_count = 6;
  cluster_size = 0;
  mask = server ∷ [];
  functions = none;
  accepted_command_list = none;
  generated_command_list = none;
  event_list = none;
  event_count = 0;
}

abbrev pub access_control_server_0 : Cluster
access_control_server_0 = record {
  cluster_id = 0x1F;
  attributes = 6;
  attribute_count = 7;
  cluster_size = 0;
  mask = server ∷ [];
  functions = none;
  accepted_command_list = none;
  generated_command_list = none;
  event_list = none;
  event_count = 0;
}

abbrev pub basic_information_server_0 : Cluster
basic_information_server_0 = record {
  cluster_id = 0x28;
  attributes = 13;
  attribute_count = 19;
  cluster_size = 0;
  mask = server ∷ [];
  functions = none;
  accepted_command_list = none;
  generated_command_list = none;
  event_list = some 0;
  event_count = 3;
}

abbrev pub general_commissioning_server_0 : Cluster
general_commissioning_server_0 = record {
  cluster_id = 0x30;
  attributes = 32;
  attribute_count = 7;
  cluster_size = 0;
  mask = server ∷ [];
  functions = none;
  accepted_command_list = some 0;
  generated_command_list = some 4;
  event_list = none;
  event_count = 0;
}

abbrev pub network_commissioning_server_0 : Cluster
network_commissioning_server_0 = record {
  cluster_id = 0x31;
  attributes = 39;
  attribute_count = 13;
  cluster_size = 0;
  mask = server ∷ [];
  functions = none;
  accepted_command_list = some 8;
  generated_command_list = some 15;
  event_list = none;
  event_count = 0;
}

abbrev pub diagnostic_logs_server_0 : Cluster
diagnostic_logs_server_0 = record {
  cluster_id = 0x32;
  attributes = 52;
  attribute_count = 2;
  cluster_size = 0;
  mask = server ∷ [];
  functions = none;
  accepted_command_list = some 19;
  generated_command_list = some 21;
  event_list = none;
  event_count = 0;
}

abbrev pub general_diagnostics_server_0 : Cluster
general_diagnostics_server_0 = record {
  cluster_id = 0x33;
  attributes = 54;
  attribute_count = 8;
  cluster_size = 0;
  mask = server ∷ [];
  functions = none;
  accepted_command_list = some 23;
  generated_command_list = some 26;
  event_list = none;
  event_count = 0;
}

abbrev pub software_diagnostics_server_0 : Cluster
software_diagnostics_server_0 = record {
  cluster_id = 0x34;
  attributes = 62;
  attribute_count = 4;
  cluster_size = 0;
  mask = server ∷ [];
  functions = none;
  accepted_command_list = none;
  generated_command_list = none;
  event_list = none;
  event_count = 0;
}

abbrev pub thread_network_diagnostics_server_0 : Cluster
thread_network_diagnostics_server_0 = record {
  cluster_id = 0x35;
  attributes = 66;
  attribute_count = 65;
  cluster_size = 4;
  mask = server ∷ [];
  functions = none;
  accepted_command_list = some 28;
  generated_command_list = none;
  event_list = none;
  event_count = 0;
}

abbrev pub administrator_commissioning_server_0 : Cluster
administrator_commissioning_server_0 = record {
  cluster_id = 0x3C;
  attributes = 131;
  attribute_count = 5;
  cluster_size = 4;
  mask = server ∷ [];
  functions = none;
  accepted_command_list = some 30;
  generated_command_list = none;
  event_list = none;
  event_count = 0;
}

abbrev pub operational_credentials_server_0 : Cluster
operational_credentials_server_0 = record {
  cluster_id = 0x3E;
  attributes = 136;
  attribute_count = 8;
  cluster_size = 0;
  mask = server ∷ [];
  functions = none;
  accepted_command_list = some 34;
  generated_command_list = some 43;
  event_list = none;
  event_count = 0;
}

abbrev pub group_key_management_server_0 : Cluster
group_key_management_server_0 = record {
  cluster_id = 0x3F;
  attributes = 144;
  attribute_count = 6;
  cluster_size = 0;
  mask = server ∷ [];
  functions = none;
  accepted_command_list = some 48;
  generated_command_list = some 53;
  event_list = none;
  event_count = 0;
}
