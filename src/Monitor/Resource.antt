-- ===== src/Monitor/Resource.antt =====
-- api/v1alpha1/monitor_types.go: the Monitor resource, its specification and its status. The
-- metadata is what the operator reads of it.
use uptime_robot_operator.Prelude.{ℕ, String, Bool, Option, List}
use uptime_robot_operator.Prelude.Int.{ℤ}
use uptime_robot_operator.Urtypes.{MonitorType}
use uptime_robot_operator.Conditions.{Condition}
use uptime_robot_operator.Finalizer.Annotations.{Annotations}
use uptime_robot_operator.Monitor.{MonitorValues, MonitorContactCommon}

-- MonitorContactRef: the name of a Contact, and how it is alerted
pub record MonitorContactRef : Type 0 where
  pub name : String
  pub common : MonitorContactCommon

pub record HeartbeatUrlPublish : Type 0 where
  pub type : String
  pub name : String
  pub key : String

-- the object that created a Monitor
pub record SourceRef : Type 0 where
  pub kind : String
  pub name : String

pub record MonitorSpec : Type 0 where
  pub sync_interval : Option ℤ
  pub prune : Bool
  pub account : String
  pub monitor : MonitorValues
  pub contacts : List MonitorContactRef
  pub heartbeat_url_publish : Option HeartbeatUrlPublish
  pub source_ref : Option SourceRef

pub record MonitorStatus : Type 0 where
  pub ready : Bool
  pub id : String
  pub heartbeat_url : String
  pub publish_target_type : String
  pub publish_target_name : String
  pub publish_target_key : String
  pub type : MonitorType
  pub status : ℕ
  pub state : String
  pub conditions : List Condition
  pub observed_generation : ℤ
  pub last_synced_time : Option ℤ

pub record Monitor : Type 0 where
  pub name : String
  pub namespace : String
  pub uid : String
  pub generation : ℤ
  pub is_deleting : Bool
  pub annotations : Annotations
  pub resource_version : String
  pub finalizers : List String
  pub spec : MonitorSpec
  pub status : MonitorStatus
