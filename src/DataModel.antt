-- ===== src/DataModel.antt =====
-- The data model of the node, which ZAP generated into src/zap-generated/endpoint_config.h: tables
-- that the SDK indexes by the numbers in other tables.
pub mod Types
pub mod Root
pub mod RootThread
pub mod RootSecurity
pub mod AirConditioner
pub mod Sensors
pub mod Attributes
pub mod Commands
pub mod RootClusters
pub mod DeviceClusters
pub mod SensorClusters
pub mod Endpoints
pub mod Lookup
pub mod Layout
pub mod Sizes
pub mod Limits
pub mod CommandLists
pub mod Uses
pub mod Access
pub mod Privileges
mod Tests
