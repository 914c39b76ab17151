-- ===== src/DataModel/SensorClusters.antt =====
-- The clusters of endpoints 2 and 3, from src/zap-generated/endpoint_config.h.
use shirokumakun_matter.Common.{[], ◌∷◌, none, some}
use shirokumakun_matter.DataModel.Types.{Cluster, server}

abbrev pub identify_server_2 : Cluster
identify_server_2 = record {
  cluster_id = 0x3;
  attributes = 204;
  attribute_count = 4;
  cluster_size = 0;
  mask = server ∷ [];
  functions = none;
  accepted_command_list = some 78;
  generated_command_list = none;
  event_list = none;
  event_count = 0;
}

abbrev pub descriptor_server_2 : Cluster
descriptor_server_2 = record {
  cluster_id = 0x1D;
  attributes = 208;
  attribute_count = 6;
  cluster_size = 0;
  mask = server ∷ [];
  functions = none;
  accepted_command_list = none;
  generated_command_list = none;
  event_list = none;
  event_count = 0;
}

abbrev pub relative_humidity_server_2 : Cluster
relative_humidity_server_2 = record {
  cluster_id = 0x405;
  attributes = 214;
  attribute_count = 6;
  cluster_size = 14;
  mask = server ∷ [];
  functions = none;
  accepted_command_list = none;
  generated_command_list = none;
  event_list = none;
  event_count = 0;
}

abbrev pub identify_server_3 : Cluster
identify_server_3 = record {
  cluster_id = 0x3;
  attributes = 220;
  attribute_count = 4;
  cluster_size = 0;
  mask = server ∷ [];
  functions = none;
  accepted_command_list = some 81;
  generated_command_list = none;
  event_list = none;
  event_count = 0;
}

abbrev pub descriptor_server_3 : Cluster
descriptor_server_3 = record {
  cluster_id = 0x1D;
  attributes = 224;
  attribute_count = 6;
  cluster_size = 0;
  mask = server ∷ [];
  functions = none;
  accepted_command_list = none;
  generated_command_list = none;
  event_list = none;
  event_count = 0;
}

abbrev pub air_quality_server_3 : Cluster
air_quality_server_3 = record {
  cluster_id = 0x5B;
  attributes = 230;
  attribute_count = 3;
  cluster_size = 2;
  mask = server ∷ [];
  functions = none;
  accepted_command_list = none;
  generated_command_list = none;
  event_list = none;
  event_count = 0;
}

abbrev pub carbon_dioxide_server_3 : Cluster
carbon_dioxide_server_3 = record {
  cluster_id = 0x40D;
  attributes = 233;
  attribute_count = 7;
  cluster_size = 2;
  mask = server ∷ [];
  functions = none;
  accepted_command_list = none;
  generated_command_list = none;
  event_list = none;
  event_count = 0;
}
