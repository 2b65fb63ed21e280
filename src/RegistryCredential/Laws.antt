-- ===== src/RegistryCredential/Laws.antt =====
-- Who owns a credential, and what a secret that was built for one is read as.
use kudeploy.Prelude.{
  ℕ, suc, ◌≡◌, refl, ap, ◌∙◌, true, not, none, some, [], ◌∷◌, ◌++◌, ◌==◌, ◌&&◌, Text, nat_eq,
  list_eq, non_empty, take, drop, length, all, Bool-cases, inl, inr, ==-self, dict_get, list_beq,
  arith, if◌then◌else◌,
}
use kudeploy.Prelude.Exec.{ok}
use kudeploy.Kubernetes.Api.{ResourceApi}
use kudeploy.Kubernetes.Dates.{to_date}
use kudeploy.Kubernetes.Labels.{
  managed_by_label, managed_by_label_value, workspace_label, project_label, display_name_annotation,
  value_at, owner_labels, owner_labels-managed_by, owner_labels-workspace, owner_labels-project,
}
use kudeploy.Kubernetes.Names.{
  project, registry_credential, to_kubernetes_project_name, to_kubernetes_registry_credential_name,
}
use kudeploy.Kubernetes.Names.Laws.{
  to_graphql_id-name, has_name_prefix-name, non_empty-name, to_kubernetes_name-==,
}
use kudeploy.Kubernetes.Outside.{Outside}
use kudeploy.Project.{Workspace, ProjectResource}
use kudeploy.RegistryCredential.Docker.{
  Encoding, docker_config, colon, build_docker_config_json, docker_auth_of, index_of,
  decode_docker_auth, of_auths, of_entry,
}
use kudeploy.RegistryCredential.{
  RegistryCredentialResource, RegistryCredentialResourceInput, belongs_to_workspace_and_project,
  build_registry_credential_resource, to_registry_credential, to_docker_auth,
  registry_credential_secret_type, registry_annotation, registry_username_annotation,
  docker_config_json_key,
}

-- What is relied on of JSON and `Buffer`: what is written is read back. Texts with a lone surrogate
-- do not survive UTF-8: `Encodes` holds of the others.
pub record IsEncoding (enc : Encoding) (Encodes : Text → Type 0) : Type 0 where
  pub parse-stringify :
      (registry auth username password : Text)
      → enc.parse (enc.stringify (docker_config registry auth username password))
        ≡ some (docker_config registry auth username password)
  pub of_base64-to_base64 : (s : Text) → Encodes s → enc.of_base64 (enc.to_base64 s) ≡ s
  pub to_base64-non_empty : (s : Text) → non_empty s ≡ true → non_empty (enc.to_base64 s) ≡ true
  pub stringify-non_empty :
      (registry auth username password : Text)
      → non_empty (enc.stringify (docker_config registry auth username password)) ≡ true

index_of-append :
    (u p : Text)
    → all (λ c. not (c == colon)) u ≡ true
    → index_of colon (u ++ (colon ∷ p)) ≡ some (length u)
unfolding index_of all
index_of-append [] p h = refl
index_of-append (c ∷ u) p h = elim (Bool-cases (c == colon)) [
  | inl e ↦ ground arith
  | inr e ↦
      let tail : all (λ c. not (c == colon)) u ≡ true = rw e at h in
      rw (e, index_of-append u p tail) refl
]

pub take-append : (u p : Text) → take (length u) (u ++ p) ≡ u
unfolding take
take-append [] p = refl
take-append (c ∷ u) p = ap (◌∷◌ c) (take-append u p)

drop-append_one : (u p : Text) (c : ℕ) → drop (suc (length u)) (u ++ (c ∷ p)) ≡ p
unfolding drop
drop-append_one [] p c = refl
drop-append_one (d ∷ u) p c = drop-append_one u p c

module _ (enc : Encoding) {Encodes : Text → Type 0} (is : IsEncoding enc Encodes) where
  -- The text after "Basic" that a username without a colon and a password give is read as the two.
  pub decode_docker_auth-to_base64 :
      (username password : Text)
      → all (λ c. not (c == colon)) username ≡ true
      → Encodes (username ++ (colon ∷ password))
      → non_empty (username ++ (colon ∷ password)) ≡ true
      → decode_docker_auth enc (some (enc.to_base64 (username ++ (colon ∷ password))))
        ≡ some (username, password)
  unfolding decode_docker_auth
  decode_docker_auth-to_base64 username password h e f =
      rw
        (
          is.to_base64-non_empty _ f,
          is.of_base64-to_base64 _ e,
          index_of-append username password h,
          take-append username (colon ∷ password),
          drop-append_one username password colon,
        )
        refl

  -- What the secret is built to hold is read back.
  docker_auth_of-build :
      (registry username password : Text)
      → Encodes (build_docker_config_json enc registry username password)
      → docker_auth_of enc
          (some (enc.to_base64 (build_docker_config_json enc registry username password)))
        ≡ (if non_empty registry
            then some (record {
              registry = registry;
              username = some username;
              password = some password;
              auth = some (enc.to_base64 (username ++ (colon ∷ password)));
            })
            else none)
  unfolding docker_auth_of of_auths of_entry build_docker_config_json docker_config
  docker_auth_of-build registry username password e =
      rw
        (
          is.to_base64-non_empty _ (is.stringify-non_empty _ _ _ _),
          is.of_base64-to_base64 _ e,
          is.parse-stringify _ _ _ _,
        )
        refl

-- The parts of a body that the cluster keeps; `stringData` becomes `data` in base64.
pub record KeepsSecret (enc : Encoding) (body r : RegistryCredentialResource) : Type 0 where
  pub name : r.name ≡ body.name
  pub namespace : r.namespace ≡ body.namespace
  pub type : r.type ≡ body.type
  pub labels :
      (key value : Text)
      → value_at body.labels key ≡ some value
      → value_at r.labels key ≡ some value
  pub annotations :
      (key value : Text)
      → value_at body.annotations key ≡ some value
      → value_at r.annotations key ≡ some value
  pub contents :
      (key value : Text)
      → value_at body.string_data key ≡ some value
      → value_at r.contents key ≡ some (enc.to_base64 value)

module _ (enc : Encoding) (ws : Workspace) (id project_id : Text)
    (input : RegistryCredentialResourceInput) {r : RegistryCredentialResource}
    (k : KeepsSecret enc
      (build_registry_credential_resource enc ws
        (to_kubernetes_project_name project_id)
        (to_kubernetes_registry_credential_name id)
        input)
      r) where
  secret_label :
      (key value : Text)
      → dict_get key (owner_labels ws.id (to_kubernetes_project_name project_id)) ≡ some value
      → value_at r.labels key ≡ some value
  unfolding build_registry_credential_resource value_at
  secret_label key value e = k.labels key value e

  secret_name : r.name ≡ some (to_kubernetes_registry_credential_name id)
  unfolding build_registry_credential_resource
  secret_name = k.name

  secret_namespace : r.namespace ≡ some (to_kubernetes_project_name project_id)
  unfolding build_registry_credential_resource
  secret_namespace = k.namespace

  secret_type : r.type ≡ some registry_credential_secret_type
  unfolding build_registry_credential_resource
  secret_type = k.type

  secret_display_name : value_at r.annotations display_name_annotation ≡ some input.name
  unfolding build_registry_credential_resource value_at dict_get
  secret_display_name =
      k.annotations display_name_annotation input.name (rw (==-self display_name_annotation) refl)

  secret_registry : value_at r.annotations registry_annotation ≡ some input.registry
  unfolding build_registry_credential_resource value_at dict_get registry_annotation
      display_name_annotation list_beq
  secret_registry = k.annotations registry_annotation input.registry refl

  secret_username : value_at r.annotations registry_username_annotation ≡ some input.username
  unfolding build_registry_credential_resource value_at dict_get registry_annotation
      registry_username_annotation display_name_annotation list_beq
  secret_username = k.annotations registry_username_annotation input.username refl

  secret_contents :
      value_at r.contents docker_config_json_key
      ≡ some (
          enc.to_base64 (build_docker_config_json enc input.registry input.username input.password))
  unfolding build_registry_credential_resource value_at dict_get
  secret_contents = k.contents docker_config_json_key _ (rw (==-self docker_config_json_key) refl)

  -- A secret that was built for a workspace and a project is accepted for those alone.
  pub belongs_of_secret :
      (ws' : Workspace) (project_id' : Text)
      → belongs_to_workspace_and_project r ws' (to_kubernetes_project_name project_id')
        ≡ (ws.id == ws'.id && project_id == project_id')
  unfolding belongs_to_workspace_and_project
  belongs_of_secret ws' project_id' =
      let pn = to_kubernetes_project_name project_id in
      let managed = secret_label managed_by_label _ (owner_labels-managed_by ws.id pn) in
      let of_workspace = secret_label workspace_label _ (owner_labels-workspace ws.id pn) in
      let of_project = secret_label project_label _ (owner_labels-project ws.id pn) in
      rw
        (
          managed,
          of_workspace,
          of_project,
          secret_name,
          secret_namespace,
          secret_type,
          has_name_prefix-name registry_credential id,
          non_empty-name registry_credential id,
          ==-self managed_by_label_value,
          ==-self registry_credential_secret_type,
          to_kubernetes_name-== project project_id project_id',
        )
        (ground arith)

  -- Its password is read back.
  pub to_docker_auth_of_secret :
      {Encodes : Text → Type 0} (is : IsEncoding enc Encodes)
      → Encodes (build_docker_config_json enc input.registry input.username input.password)
      → to_docker_auth enc r ≡ (
          if non_empty input.registry
          then some (record {
            registry = input.registry;
            username = some input.username;
            password = some input.password;
            auth = some (enc.to_base64 (input.username ++ (colon ∷ input.password)));
          })
          else none)
  unfolding to_docker_auth
  to_docker_auth_of_secret is e =
      ap (docker_auth_of enc) secret_contents
      ∙ docker_auth_of-build enc is input.registry input.username input.password e

  pub to_registry_credential_of_secret :
      {W : Type 0} (o : Outside W) (projects : ResourceApi W (Unit {0}) ProjectResource)
      (secrets : ResourceApi W Text RegistryCredentialResource)
      → to_registry_credential o enc projects secrets r
        ≡ ok (record {
          id = id;
          project_id = project_id;
          name = input.name;
          registry = input.registry;
          username = input.username;
          created_at = to_date o.parse_date r.creation_timestamp;
          updated_at = to_date o.parse_date r.creation_timestamp;
        })
  unfolding to_registry_credential
  to_registry_credential_of_secret o projects secrets =
      rw
        (
          secret_name,
          secret_namespace,
          secret_display_name,
          secret_registry,
          secret_username,
          non_empty-name registry_credential id,
          non_empty-name project project_id,
          to_graphql_id-name registry_credential id,
          to_graphql_id-name project project_id,
        )
        refl
