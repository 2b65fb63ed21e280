-- ===== src/RegistryCredential.antt =====
-- app/registry-credential/registry-credential.service.ts. The secrets of a project's namespace hold
-- the credentials for registries.
pub mod Docker
pub mod Laws
pub mod Lifecycle
mod Examples
use kudeploy.Prelude.{
  ℕ, Bool, true, false, not, ◌&&◌, Option, none, some, List, [], ◌∷◌, ◌++◌, Text, units, filter,
  dict_get, is_value, ◌==◌, nat_eq, list_eq, or_else, non_empty, if◌then◌else◌, join, length, leb,
}
use kudeploy.Prelude.Exec.{
  Result, ok, err, Failure, not_found, bad_request, Exec, pure, throw, lift, guard, try_catch,
  map_results, with_result, and_then, ◌>>=◌, ◌>>◌,
}
use kudeploy.Prelude.Int.{decimal}
use kudeploy.Prelude.Trimming.{optional}
use kudeploy.Connection.Value.{str, date, obj, end, field}
use kudeploy.Connection.Manager.{Entity, FieldOptions, ConnectionArgs, Connection, find}
use kudeploy.Kubernetes.Api.{ResourceApi, null_if_missing, not_found_if_missing}
use kudeploy.Kubernetes.Dates.{Date, to_date}
use kudeploy.Kubernetes.Labels.{
  managed_by_label, managed_by_label_value, workspace_label, project_label, display_name_annotation,
  value_at, owner_labels,
}
use kudeploy.Kubernetes.Names.{
  to_kubernetes_project_name, to_kubernetes_registry_credential_name, to_graphql_project_id,
  to_graphql_registry_credential_id, has_kubernetes_registry_credential_name_prefix, id_or_empty,
}
use kudeploy.Kubernetes.Outside.{Outside}
use kudeploy.Project.{Workspace, ProjectResource, is_set, ensure_project}
use kudeploy.RegistryCredential.Docker.{
  Encoding, DockerAuth, build_docker_config_json, docker_auth_of,
}

unfoldable pub registry_credential_secret_type : Text
unfolding units
registry_credential_secret_type = units "kubernetes.io/dockerconfigjson"

unfoldable pub registry_annotation : Text
unfolding units
registry_annotation = units "kudeploy.com/registry"

unfoldable pub registry_username_annotation : Text
unfolding units
registry_username_annotation = units "kudeploy.com/registry-username"

unfoldable pub docker_config_json_key : Text
unfolding units
docker_config_json_key = units ".dockerconfigjson"

abbrev pub max_registry_credentials_per_project : ℕ
max_registry_credentials_per_project = 20

pub record RegistryCredentialResource : Type 0 where
  pub name : Option Text
  pub namespace : Option Text
  pub labels : Option (List (Text × Text))
  pub annotations : Option (List (Text × Text))
  pub creation_timestamp : Option Text
  pub contents : Option (List (Text × Text))
  pub string_data : Option (List (Text × Text))
  pub type : Option Text

pub record RegistryCredential : Type 0 where
  pub id : Text
  pub project_id : Text
  pub name : Text
  pub registry : Text
  pub username : Text
  pub created_at : Date
  pub updated_at : Date

pub record CreateRegistryCredentialInput : Type 0 where
  pub project_id : Text
  pub name : Text
  pub registry : Text
  pub username : Text
  pub password : Text

pub record UpdateRegistryCredentialInput : Type 0 where
  pub name : Option Text
  pub registry : Option Text
  pub username : Option Text
  pub password : Option Text

pub record RegistryCredentialResourceInput : Type 0 where
  pub name : Text
  pub registry : Text
  pub username : Text
  pub password : Text

abbrev required_text : Option Text → Text → Result Text
required_text none message = err (bad_request message)
required_text (some value) message = ok value

unfoldable pub required : Text → Text → Result Text
unfolding optional
required value message = required_text (optional (some value)) message

instance abbrev pub registry_credential_entity : Entity RegistryCredential
registry_credential_entity = record {
  as_value = λ c. obj (
      field (units "id") (str c.id) (
        field (units "name") (str c.name) (
          field (units "registry") (str c.registry) (
            field (units "username") (str c.username) (
              field (units "createdAt") (date c.created_at)
                (field (units "updatedAt") (date c.updated_at) end))))));
  id_of = λ c. some c.id;
}

-- registry-credential.connection-definition.ts
unfoldable pub registry_credential_connection : List FieldOptions
unfolding units
registry_credential_connection =
    record { field = units "name"; searchable = true; replacement = none }
    ∷ record { field = units "registry"; searchable = true; replacement = none }
    ∷ record { field = units "createdAt"; searchable = false; replacement = none }
    ∷ []

unfoldable pub belongs_to_workspace_and_project :
    RegistryCredentialResource → Workspace → Text → Bool
unfolding value_at non_empty
belongs_to_workspace_and_project r workspace project_name =
    is_value r.namespace project_name
    && (is_set r.name
        && (has_kubernetes_registry_credential_name_prefix (or_else r.name [])
            && (is_value (value_at r.labels managed_by_label) managed_by_label_value
                && (is_value (value_at r.labels workspace_label) workspace.id
                    && (is_value (value_at r.labels project_label) project_name
                        && is_value r.type registry_credential_secret_type)))))

unfoldable pub registry_credential_label_selector : Workspace → Text → Text
unfolding join units
registry_credential_label_selector workspace project_name = join (units ",") (
    (managed_by_label ++ (units "=" ++ managed_by_label_value))
    ∷ (workspace_label ++ (units "=" ++ workspace.id))
    ∷ (project_label ++ (units "=" ++ project_name))
    ∷ [])

unfoldable pub build_registry_credential_resource :
    Encoding
    → Workspace
    → Text
    → Text
    → RegistryCredentialResourceInput
    → RegistryCredentialResource
unfolding build_docker_config_json
build_registry_credential_resource enc workspace project_name name input = record {
  name = some name;
  namespace = some project_name;
  labels = some (owner_labels workspace.id project_name);
  annotations = some (
      (display_name_annotation, input.name)
      ∷ (registry_annotation, input.registry)
      ∷ (registry_username_annotation, input.username)
      ∷ []);
  creation_timestamp = none;
  contents = none;
  string_data = some (
      (
        docker_config_json_key,
        build_docker_config_json enc input.registry input.username input.password,
      )
      ∷ []);
  type = some registry_credential_secret_type;
}

unfoldable pub to_docker_auth : Encoding → RegistryCredentialResource → Option DockerAuth
unfolding docker_auth_of value_at
to_docker_auth enc r = docker_auth_of enc (value_at r.contents docker_config_json_key)

abbrev pub auth_registry : Option DockerAuth → Option Text
auth_registry none = none
auth_registry (some a) = some a.registry

abbrev pub auth_username : Option DockerAuth → Option Text
auth_username none = none
auth_username (some a) = a.username

abbrev pub auth_password : Option DockerAuth → Option Text
auth_password none = none
auth_password (some a) = a.password

-- the password of the input if it is not blank, or else the one that is stored; `''` is none
abbrev pub password_of : Option Text → Option Text → Option Text
password_of (some given) existing = some given
password_of none none = none
password_of none (some existing) = if non_empty existing then some existing else none

module _ {W : Type 0} (o : Outside W) (enc : Encoding)
    (projects : ResourceApi W (Unit {0}) ProjectResource)
    (secrets : ResourceApi W Text RegistryCredentialResource) where
  unfoldable pub credential_with_ids :
      RegistryCredentialResource → Option DockerAuth → Text → Text → RegistryCredential
  credential_with_ids r auth id project_id = record {
    id = id;
    project_id = project_id;
    name = or_else (value_at r.annotations display_name_annotation) (or_else r.name []);
    registry =
        or_else (value_at r.annotations registry_annotation) (or_else (auth_registry auth) []);
    username =
        or_else (value_at r.annotations registry_username_annotation)
          (or_else (auth_username auth) []);
    created_at = to_date o.parse_date r.creation_timestamp;
    updated_at = to_date o.parse_date r.creation_timestamp;
  }

  unfoldable pub to_registry_credential : RegistryCredentialResource → Result RegistryCredential
  unfolding credential_with_ids non_empty
  to_registry_credential r = and_then (id_or_empty to_graphql_registry_credential_id r.name) λ id.
      with_result (id_or_empty to_graphql_project_id r.namespace)
        λ project_id. credential_with_ids r (to_docker_auth enc r) id project_id

  -- the secrets of the namespace that are credentials of the workspace
  unfoldable pub owned_credentials :
      Workspace → Text → Option (List RegistryCredentialResource) → List RegistryCredentialResource
  unfolding filter
  owned_credentials workspace project_name items =
      filter (λ r. belongs_to_workspace_and_project r workspace project_name) (or_else items [])

  unfoldable pub find_registry_credentials :
      Workspace → Text → ConnectionArgs → Exec W (Connection RegistryCredential)
  unfolding registry_credential_label_selector owned_credentials find
  find_registry_credentials workspace project_id args = do
    let project_name = to_kubernetes_project_name project_id
    ensure_project o projects workspace project_id
    items ←
        secrets.list_items project_name (registry_credential_label_selector workspace project_name)
    nodes ←
        lift (map_results to_registry_credential (owned_credentials workspace project_name items))
    lift (find o.runtime (some registry_credential_connection) args nodes)

  -- the body of the `try` in `findRegistryCredential`
  unfoldable pub found_credential :
      Workspace → Text → RegistryCredentialResource → Exec W (Option RegistryCredential)
  found_credential workspace project_name r =
      if belongs_to_workspace_and_project r workspace project_name
      then (do found ← lift (to_registry_credential r); pure (some found))
      else pure none

  unfoldable pub find_registry_credential :
      Workspace → Text → Text → Exec W (Option RegistryCredential)
  unfolding found_credential null_if_missing
  find_registry_credential workspace project_id id = do
    let project_name = to_kubernetes_project_name project_id
    ensure_project o projects workspace project_id
    try_catch
        (do
          r ← secrets.read project_name (to_kubernetes_registry_credential_name id)
          found_credential workspace project_name r)
        null_if_missing

  unfoldable pub ensure_registry_credential_quota : Workspace → Text → Exec W (Unit {0})
  unfolding owned_credentials registry_credential_label_selector units decimal
  ensure_registry_credential_quota workspace project_name = do
    items ←
        secrets.list_items project_name (registry_credential_label_selector workspace project_name)
    guard
        (not (
          leb max_registry_credentials_per_project
            (length (owned_credentials workspace project_name items))))
        (bad_request (
          units "Registry credentials limit reached ("
          ++ (decimal max_registry_credentials_per_project ++ units " per project)")))

  unfoldable pub create_registry_credential :
      Workspace → CreateRegistryCredentialInput → Exec W RegistryCredential
  unfolding required units
  create_registry_credential workspace input = do
    let project_name = to_kubernetes_project_name input.project_id
    ensure_project o projects workspace input.project_id
    ensure_registry_credential_quota workspace project_name
    id ← o.next_id
    name ← lift (required input.name (units "Name is required"))
    registry ← lift (required input.registry (units "Registry is required"))
    username ← lift (required input.username (units "Username is required"))
    password ← lift (required input.password (units "Password is required"))
    r ← secrets.create project_name (
        build_registry_credential_resource enc workspace project_name
          (to_kubernetes_registry_credential_name id)
          (record { name = name; registry = registry; username = username; password = password }))
    lift (to_registry_credential r)

  -- the body of the `try` in `getOwnedRegistryCredential`
  unfoldable pub owned_credential :
      Workspace → Text → RegistryCredentialResource → Exec W RegistryCredentialResource
  unfolding units
  owned_credential workspace project_name r = do
    guard (belongs_to_workspace_and_project r workspace project_name)
        (not_found (units "Registry credential not found"))
    pure r

  unfoldable pub get_owned_registry_credential :
      Workspace → Text → Text → Exec W RegistryCredentialResource
  unfolding owned_credential not_found_if_missing units
  get_owned_registry_credential workspace project_name name =
      try_catch (do r ← secrets.read project_name name; owned_credential workspace project_name r)
        (not_found_if_missing (units "Registry credential not found"))

  unfoldable pub or_bad_request : Option Text → Exec W Text
  unfolding units
  or_bad_request none = throw (bad_request (units "Registry credential password is required"))
  or_bad_request (some password) = pure password

  unfoldable pub update_registry_credential :
      Workspace → Text → Text → UpdateRegistryCredentialInput → Exec W RegistryCredential
  unfolding get_owned_registry_credential optional or_bad_request
  update_registry_credential workspace project_id id input = do
    let project_name = to_kubernetes_project_name project_id
    ensure_project o projects workspace project_id
    existing_resource ←
        get_owned_registry_credential workspace project_name
          (to_kubernetes_registry_credential_name id)
    existing ← lift (to_registry_credential existing_resource)
    password ← or_bad_request (
        password_of (optional input.password)
          (auth_password (to_docker_auth enc existing_resource)))
    r ← secrets.apply project_name (to_kubernetes_registry_credential_name id) (
        build_registry_credential_resource enc workspace project_name
          (to_kubernetes_registry_credential_name id)
          (record {
            name = or_else (optional input.name) existing.name;
            registry = or_else (optional input.registry) existing.registry;
            username = or_else (optional input.username) existing.username;
            password = password;
          }))
    lift (to_registry_credential r)

  unfoldable pub delete_registry_credential : Workspace → Text → Text → Exec W RegistryCredential
  unfolding get_owned_registry_credential
  delete_registry_credential workspace project_id id = do
    let project_name = to_kubernetes_project_name project_id
    ensure_project o projects workspace project_id
    r ←
        get_owned_registry_credential workspace project_name
          (to_kubernetes_registry_credential_name id)
    secrets.delete project_name (to_kubernetes_registry_credential_name id)
    lift (to_registry_credential r)
