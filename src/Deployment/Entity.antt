-- ===== src/Deployment/Entity.antt =====
-- The resources of the deployment API, and deployment.object.ts.
use kudeploy.Prelude.{ℕ, Bool, Option, some, List, Text, units}
use kudeploy.Prelude.Int.{ℤ, pos}
use kudeploy.Connection.Value.{num, str, date, obj, end, field}
use kudeploy.Connection.Manager.{Entity}

pub data DeploymentStatus : Type 0 where
  pending progressing ready failed unknown : DeploymentStatus

pub record DeploymentCondition : Type 0 where
  pub type : Option Text
  pub status : Option Text
  pub reason : Option Text
  pub last_transition_time : Option Text

pub record EnvFromSource : Type 0 where
  pub config_map_name : Option Text
  pub secret_name : Option Text
  pub prefix : Option Text

-- A port with its target, a variable with its value, `limits` and `requests` with cpu and memory.
pub record DeploymentResource : Type 0 where
  pub name : Text
  pub namespace : Text
  pub labels : Option (List (Text × Text))
  pub creation_timestamp : Option Text
  pub args : Option (List Text)
  pub command : Option (List Text)
  pub env : Option (List (Text × Option Text))
  pub env_from : Option (List EnvFromSource)
  pub image : Text
  pub ports : Option (List (ℕ × Option ℕ))
  pub replicas : Option ℕ
  pub limits : Option (Option Text × Option Text)
  pub requests : Option (Option Text × Option Text)
  pub service_account_name : Option Text
  pub service_name : Text
  pub version : ℕ
  pub conditions : Option (List DeploymentCondition)
  pub kubernetes_deployment_name : Option Text

pub record DeploymentEnvFrom : Type 0 where
  pub kind : Text
  pub name : Text
  pub prefix : Option Text

pub record DeploymentResources : Type 0 where
  pub cpu_request : Option Text
  pub cpu_limit : Option Text
  pub memory_request : Option Text
  pub memory_limit : Option Text

pub record Deployment : Type 0 where
  pub id : Text
  pub project_id : Text
  pub service_id : Text
  pub version : ℕ
  pub image : Text
  pub replicas : Option ℕ
  pub ports : List (ℕ × Option ℕ)
  pub env : List (Text × Option Text)
  pub env_from : List DeploymentEnvFrom
  pub command : List Text
  pub args : List Text
  pub resources : Option DeploymentResources
  pub service_account_name : Option Text
  pub status : DeploymentStatus
  pub active : Bool
  pub latest : Bool
  pub kubernetes_deployment_name : Option Text
  pub created_at : ℤ
  pub updated_at : ℤ

unfoldable pub status_text : DeploymentStatus → Text
status_text pending = units "PENDING"
status_text progressing = units "PROGRESSING"
status_text ready = units "READY"
status_text failed = units "FAILED"
status_text unknown = units "UNKNOWN"

-- The fields that a connection of deployments can search, filter or sort by, and the ids.
instance abbrev pub deployment_entity : Entity Deployment
deployment_entity = record {
  as_value = λ d. obj (
      field (units "id") (str d.id) (
        field (units "version") (num (pos d.version)) (
          field (units "image") (str d.image) (
            field (units "status") (str (status_text d.status)) (
              field (units "createdAt") (date (some d.created_at))
                (field (units "updatedAt") (date (some d.updated_at)) end))))));
  id_of = λ d. some d.id;
}
