-- ===== src/Service/Entity.antt =====
-- The resources of the service API, service.object.ts, and the inputs of the operations.
use kudeploy.Prelude.{Bool, Option, some, List, Text, units, Patch}
use kudeploy.Prelude.Int.{ℤ}
use kudeploy.Connection.Value.{str, date, obj, end, field}
use kudeploy.Connection.Manager.{Entity}
use kudeploy.Kubernetes.Dates.{Date}

pub data ServiceStatus : Type 0 where
  pending progressing ready failed unknown : ServiceStatus

pub data ServiceHealthCheckType : Type 0 where
  http tcp : ServiceHealthCheckType

-- A port in a probe: a number, or a text.
pub data PortValue : Type 0 where
  number : ℤ → PortValue
  text : Text → PortValue

pub record HttpGetAction : Type 0 where
  pub path : Option Text
  pub port : PortValue

-- `tcp_socket` is the port of `tcpSocket`.
pub record ServiceResourceProbe : Type 0 where
  pub http_get : Option HttpGetAction
  pub tcp_socket : Option PortValue
  pub initial_delay_seconds : Option ℤ
  pub timeout_seconds : Option ℤ
  pub period_seconds : Option ℤ
  pub success_threshold : Option ℤ
  pub failure_threshold : Option ℤ

pub record Quantities : Type 0 where
  pub cpu : Option Text
  pub memory : Option Text

pub record ServiceResourceRequirements : Type 0 where
  pub requests : Option Quantities
  pub limits : Option Quantities

-- What an input gives for a target port may be `null`, and is then written as it is.
pub record ServicePortInput : Type 0 where
  pub port : ℤ
  pub target_port : Patch ℤ

pub record ResourceVolume : Type 0 where
  pub name : Text
  pub mount_path : Text
  pub sub_path : Option Text
  pub read_only : Option Bool

pub record ServiceCondition : Type 0 where
  pub type : Option Text
  pub status : Option Text
  pub reason : Option Text

-- `metadata`, `spec` and `status` in one record; a variable is its name and value.
pub record ServiceResource : Type 0 where
  pub name : Text
  pub namespace : Text
  pub labels : Option (List (Text × Text))
  pub annotations : Option (List (Text × Text))
  pub creation_timestamp : Option Text
  pub image : Text
  pub replicas : Option ℤ
  pub command : Option (List Text)
  pub args : Option (List Text)
  pub resources : Option ServiceResourceRequirements
  pub image_secret_ref : Option Text
  pub ports : List ServicePortInput
  pub env : Option (List (Text × Text))
  pub readiness_probe : Option ServiceResourceProbe
  pub liveness_probe : Option ServiceResourceProbe
  pub startup_probe : Option ServiceResourceProbe
  pub volumes : Option (List ResourceVolume)
  pub active_deployment_name : Option Text
  pub conditions : Option (List ServiceCondition)
  pub latest_deployment_name : Option Text

pub record ServicePort : Type 0 where
  pub port : ℤ
  pub target_port : Option ℤ

pub record ServiceResources : Type 0 where
  pub cpu_request : Option Text
  pub cpu_limit : Option Text
  pub memory_request : Option Text
  pub memory_limit : Option Text

pub record ServiceHealthCheck : Type 0 where
  pub type : ServiceHealthCheckType
  pub port : ℤ
  pub path : Option Text

pub record ServiceVolume : Type 0 where
  pub volume_id : Text
  pub mount_path : Text
  pub sub_path : Option Text
  pub read_only : Bool

pub record Service : Type 0 where
  pub id : Text
  pub project_id : Text
  pub name : Text
  pub image : Text
  pub registry_credential_id : Option Text
  pub replicas : Option ℤ
  pub ports : List ServicePort
  pub env : List (Text × Text)
  pub command : List Text
  pub args : List Text
  pub resources : Option ServiceResources
  pub health_check : Option ServiceHealthCheck
  pub volumes : List ServiceVolume
  pub status : ServiceStatus
  pub active_deployment_name : Option Text
  pub latest_deployment_name : Option Text
  pub created_at : Date
  pub updated_at : Date

pub record ServiceVolumeInput : Type 0 where
  pub volume_id : Text
  pub mount_path : Text
  pub sub_path : Option Text
  pub read_only : Option Bool

-- A field where the code treats `undefined` and `null` alike is an `Option`, any other a `Patch`.
pub record ServiceResourceInput : Type 0 where
  pub project_id : Text
  pub name : Text
  pub image : Text
  pub registry_credential_id : Option Text
  pub replicas : Option ℤ
  pub command : Option (List Text)
  pub args : Option (List Text)
  pub resources : Option ServiceResources
  pub health_check : Option ServiceHealthCheck
  pub ports : List ServicePortInput
  pub env : Option (List (Text × Text))
  pub volumes : Patch (List ServiceVolumeInput)

pub record UpdateServiceInput : Type 0 where
  pub name : Option Text
  pub image : Option Text
  pub registry_credential_id : Patch Text
  pub replicas : Patch ℤ
  pub command : Patch (List Text)
  pub args : Patch (List Text)
  pub resources : Patch ServiceResources
  pub health_check : Patch ServiceHealthCheck
  pub ports : Option (List ServicePortInput)
  pub env : Option (List (Text × Text))
  pub volumes : Patch (List ServiceVolumeInput)

-- The fields that a connection of services can search, filter or sort by, and the ids.
instance abbrev pub service_entity : Entity Service
service_entity = record {
  as_value = λ s. obj (
      field (units "id") (str s.id) (
        field (units "name") (str s.name) (
          field (units "createdAt") (date s.created_at)
            (field (units "updatedAt") (date s.updated_at) end))));
  id_of = λ s. some s.id;
}
