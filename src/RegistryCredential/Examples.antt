-- ===== src/RegistryCredential/Examples.antt =====
-- The theorems on credentials in a small cluster in memory.
use kudeploy.Prelude.{
  ◌≡◌, refl, sym, ap, Option, none, some, List, [], ◌∷◌, ◌++◌, Text, units, ◌==◌, nat_eq, list_eq,
  if◌then◌else◌, or_else, take, drop, drop-append, length, non_empty, trim, drop_spaces, is_space,
}
use kudeploy.Prelude.Int.{pos}
use kudeploy.Prelude.Exec.{ok, err, not_found}
use kudeploy.Prelude.Trimming.{optional}
use kudeploy.Kubernetes.Api.{ResourceApi, IsStore}
use kudeploy.Kubernetes.Memory.{
  Memory, unit_eq, memory_api, held, memory_api-IsStore, admitting, admitting-IsStore,
}
use kudeploy.Kubernetes.Names.{to_kubernetes_registry_credential_name}
use kudeploy.Project.{Workspace, find_project}
use kudeploy.Project.Ensuring.{in_project, KeepsProjects}
use kudeploy.Project.Town.{
  Town, ann, bob, shop, shop_name, town_runs, outside, namespaces, shop_with, find_project-shop,
  find_project_beside,
}
use kudeploy.RegistryCredential.Docker.{
  Encoding, DockerConfig, DockerAuthEntry, docker_config, build_docker_config_json,
  decode_docker_auth, docker_auth_of, of_auths, of_entry, index_of,
}
use kudeploy.RegistryCredential.{
  RegistryCredentialResource, RegistryCredential, CreateRegistryCredentialInput,
  UpdateRegistryCredentialInput, RegistryCredentialResourceInput, belongs_to_workspace_and_project,
  build_registry_credential_resource, to_registry_credential, to_docker_auth, auth_password,
  owned_credentials, find_registry_credential, create_registry_credential,
  update_registry_credential, delete_registry_credential, docker_config_json_key,
  registry_annotation, registry_username_annotation, registry_credential_secret_type,
}
use kudeploy.RegistryCredential.Laws.{IsEncoding, KeepsSecret, take-append}
use kudeploy.RegistryCredential.Lifecycle.{
  secret_key, registry_credential_refused, update_registry_credential-password,
  create_registry_credential-find_registry_credential,
}

-- An encoding that writes lengths.
abbrev write_entry : DockerAuthEntry → Text
write_entry e =
    length (or_else e.auth [])
    ∷ (or_else e.auth []
        ++ (length (or_else e.username []) ∷ (or_else e.username [] ++ or_else e.password [])))

abbrev write_auths : Option (List (Text × Option DockerAuthEntry)) → Text
write_auths (some ((registry, some entry) ∷ rest)) =
    length registry ∷ (registry ++ write_entry entry)
write_auths _ = []

abbrev read_username : Text → Text → Text → Option DockerConfig
read_username registry auth [] = none
read_username registry auth (n ∷ s) = some (docker_config registry auth (take n s) (drop n s))

abbrev read_auth : Text → Text → Option DockerConfig
read_auth registry [] = none
read_auth registry (n ∷ s) = read_username registry (take n s) (drop n s)

abbrev read_config : Text → Option DockerConfig
read_config [] = none
read_config (n ∷ s) = read_auth (take n s) (drop n s)

abbrev plain : Encoding
plain = record {
  stringify = λ c. write_auths c.auths;
  parse = read_config;
  to_base64 = λ s. s;
  of_base64 = λ s. s;
}

plain-IsEncoding : IsEncoding plain (λ s. Unit {0})
unfolding docker_config non_empty
plain-IsEncoding = record {
  parse-stringify = λ registry auth username password.
      rw
        (
          take-append registry,
          drop-append registry,
          take-append auth,
          drop-append auth,
          take-append username,
          drop-append username,
        )
        refl;
  of_base64-to_base64 = λ s h. refl;
  to_base64-non_empty = λ s h. h;
  stringify-non_empty = λ registry auth username password. refl;
}

abbrev World : Type 0
World = Town (Memory Text RegistryCredentialResource)

-- The cluster moves `stringData` to `data`.
abbrev admit : RegistryCredentialResource → RegistryCredentialResource
admit r = record r { contents = r.string_data }

abbrev inner : ResourceApi World Text RegistryCredentialResource
inner = memory_api (λ (w : World). w.1) (λ m w. (w.0, m)) (λ m w. refl) secret_key

abbrev secrets : ResourceApi World Text RegistryCredentialResource
secrets = admitting admit inner

abbrev stored : World → Text → Text → Option RegistryCredentialResource
stored = held (λ (w : World). w.1) (λ m w. (w.0, m)) (λ m w. refl) secret_key

store : IsStore secrets stored secret_key (KeepsSecret plain)
store =
    admitting-IsStore admit
      (memory_api-IsStore (λ (w : World). w.1) (λ m w. (w.0, m)) (λ m w. refl) secret_key
        {Keeps = λ (body r : RegistryCredentialResource). body ≡ r} (λ r. refl))
      (λ body. refl)
      (λ body r e. record {
        name = sym (ap (λ (x : RegistryCredentialResource). x.name) e);
        namespace = sym (ap (λ (x : RegistryCredentialResource). x.namespace) e);
        type = sym (ap (λ (x : RegistryCredentialResource). x.type) e);
        labels = λ k v h. rw (← e) h;
        annotations = λ k v h. rw (← e) h;
        contents = λ k v h. rw (← e) h;
      })

apart : KeepsProjects outside namespaces secrets
unfolding admitting memory_api
apart = record {
  created = λ ws id scope body w. find_project_beside ws id w.0 w.1 _;
  applied = λ ws id scope name body w. find_project_beside ws id w.0 w.1 _;
}

abbrev input : CreateRegistryCredentialInput
input = record {
  project_id = units "42";
  name = units " hub ";
  registry = units "docker.io";
  username = units "eve";
  password = units "s3cret";
}

abbrev hub : RegistryCredentialResourceInput
hub = record {
  name = units "hub";
  registry = units "docker.io";
  username = units "eve";
  password = units "s3cret";
}

abbrev empty : World
empty = shop_with []

abbrev secret : Workspace → RegistryCredentialResource
secret ws = admit (
    build_registry_credential_resource plain ws shop_name
      (to_kubernetes_registry_credential_name (units "7")) hub)

abbrev holding : Workspace → World
holding ws =
    shop_with ((shop_name, to_kubernetes_registry_credential_name (units "7"), secret ws) ∷ [])

runs : Unit {0}
unfolding town_runs admitting trim drop_spaces is_space optional docker_config
    build_docker_config_json belongs_to_workspace_and_project build_registry_credential_resource
    to_registry_credential to_docker_auth docker_auth_of of_auths of_entry decode_docker_auth
    index_of owned_credentials docker_config_json_key registry_annotation
    registry_username_annotation registry_credential_secret_type take
runs = tt

create_registry_credential-find_registry_credential_example :
    (c : RegistryCredential) × (w : World) × (create_registry_credential outside plain namespaces
        secrets ann input empty
      ≡ (ok c, w))
    × (c.id ≡ units "7")
    × (c.name ≡ units "hub")
    × (c.registry ≡ units "docker.io")
    × (c.username ≡ units "eve")
    × ((ws : Workspace)
        → find_registry_credential outside plain namespaces secrets ws (units "42") (units "7") w
          ≡ (
            in_project
                (find_project outside namespaces ws (units "42") empty).0
                (if ann.id == ws.id then some c else none),
            w,
          ))
unfolding runs
create_registry_credential-find_registry_credential_example =
    create_registry_credential-find_registry_credential outside plain namespaces secrets stored
      store apart ann input shop (some []) (units "7") (units "hub") (units "docker.io")
      (units "eve") (units "s3cret") empty empty (find_project-shop []) refl refl refl refl refl
      refl refl refl

abbrev no_password : UpdateRegistryCredentialInput
no_password = record {
  name = none;
  registry = some (units "ghcr.io");
  username = none;
  password = some (units "  ");
}

registry_credential_refused_example :
    (find_registry_credential outside plain namespaces secrets ann
        (units "42")
        (units "7")
        (holding bob)
      ≡ (ok none, holding bob))
    × ((change : UpdateRegistryCredentialInput)
        → update_registry_credential outside plain namespaces secrets ann
            (units "42")
            (units "7")
            change
            (holding bob)
          ≡ (err (not_found (units "Registry credential not found")), holding bob))
    × (delete_registry_credential outside plain namespaces secrets ann
          (units "42")
          (units "7")
          (holding bob)
        ≡ (err (not_found (units "Registry credential not found")), holding bob))
unfolding runs
registry_credential_refused_example =
    registry_credential_refused outside plain namespaces secrets stored store ann (units "42")
      (units "7") shop (holding bob) (secret bob) (find_project-shop _) refl refl

abbrev shown_hub : RegistryCredential
shown_hub = record {
  id = units "7";
  project_id = units "42";
  name = units "hub";
  registry = units "docker.io";
  username = units "eve";
  created_at = some (pos 0);
  updated_at = some (pos 0);
}

-- A new registry and a blank password.
update_registry_credential-password_example :
    (c : RegistryCredential) × (r : RegistryCredentialResource) × (w : World)
    × (update_registry_credential outside plain namespaces secrets ann
          (units "42")
          (units "7")
          no_password
          (holding ann)
        ≡ (ok c, w))
    × (stored w shop_name (to_kubernetes_registry_credential_name (units "7")) ≡ some r)
    × (auth_password (to_docker_auth plain r) ≡ some (units "s3cret"))
    × (c.id ≡ units "7")
    × (c.name ≡ units "hub")
    × (c.registry ≡ units "ghcr.io")
    × (c.username ≡ units "eve")
unfolding runs
update_registry_credential-password_example =
    update_registry_credential-password outside plain namespaces secrets stored store
      plain-IsEncoding ann (units "42") (units "7") shop no_password (holding ann) (secret ann)
      shown_hub (units "s3cret") (find_project-shop _) refl refl refl refl refl tt
