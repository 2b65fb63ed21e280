-- ===== src/RegistryCredential/Lifecycle.antt =====
-- Creating, changing and reading credentials in a cluster that keeps what it is given.
use kudeploy.Prelude.{
  ◌≡◌, refl, ap, sym, ◌∙◌, arith, true, false, Option, none, some, Text, List, units, ◌==◌, nat_eq,
  list_eq, Bool-cases, inl, inr, if◌then◌else◌, or_else, [], ==-self, leb, length, non_empty,
}
use kudeploy.Prelude.Exec.{Result, ok, err, not_found}
use kudeploy.Prelude.Trimming.{optional}
use kudeploy.Kubernetes.Api.{ResourceApi, IsStore, is_not_found_error, not_found_if_missing}
use kudeploy.Kubernetes.Dates.{to_date}
use kudeploy.Kubernetes.Names.{to_kubernetes_project_name, to_kubernetes_registry_credential_name}
use kudeploy.Kubernetes.Outside.{Outside}
use kudeploy.Project.{Workspace, ProjectResource, Project, find_project, ensure_project}
use kudeploy.Project.Ensuring.{in_project, ensured, KeepsProjects}
use kudeploy.RegistryCredential.Docker.{Encoding, build_docker_config_json}
use kudeploy.RegistryCredential.{
  RegistryCredentialResource, RegistryCredential, CreateRegistryCredentialInput,
  UpdateRegistryCredentialInput, RegistryCredentialResourceInput, belongs_to_workspace_and_project,
  build_registry_credential_resource, to_registry_credential, to_docker_auth, auth_password,
  password_of, required, owned_credentials, registry_credential_label_selector,
  find_registry_credential, found_credential, ensure_registry_credential_quota,
  create_registry_credential, update_registry_credential, delete_registry_credential,
  get_owned_registry_credential, owned_credential, or_bad_request,
}
use kudeploy.RegistryCredential.Laws.{
  IsEncoding, KeepsSecret, belongs_of_secret, to_docker_auth_of_secret,
  to_registry_credential_of_secret,
}

-- the name under which a secret is stored
abbrev pub secret_key : RegistryCredentialResource → Text
secret_key r = or_else r.name []

secret_key_of_build :
    (enc : Encoding) (ws : Workspace) (project_name name : Text)
    (input : RegistryCredentialResourceInput)
    → secret_key (build_registry_credential_resource enc ws project_name name input) ≡ name
unfolding build_registry_credential_resource
secret_key_of_build enc ws project_name name input = refl

module _ {W : Type 0} (o : Outside W) (enc : Encoding)
    (projects : ResourceApi W (Unit {0}) ProjectResource)
    (secrets : ResourceApi W Text RegistryCredentialResource) where
  module _ (stored : W → Text → Text → Option RegistryCredentialResource)
      (store : IsStore secrets stored secret_key (KeepsSecret enc)) where
    find_registry_credential-stored :
        (ws : Workspace) (project_id id : Text) (w : W) (r : RegistryCredentialResource)
        (c : RegistryCredential) (seen : Result (Option Project))
        → find_project o projects ws project_id w ≡ (seen, w)
        → stored w
            (to_kubernetes_project_name project_id)
            (to_kubernetes_registry_credential_name id)
          ≡ some r
        → to_registry_credential o enc projects secrets r ≡ ok c
        → find_registry_credential o enc projects secrets ws project_id id w ≡ (
          in_project seen (
              if belongs_to_workspace_and_project r ws (to_kubernetes_project_name project_id)
              then some c
              else none),
          w,
        )
    unfolding find_registry_credential found_credential ensure_project
    find_registry_credential-stored ws project_id id w r c (err e) f s t = rw f refl
    find_registry_credential-stored ws project_id id w r c (ok none) f s t = rw f refl
    find_registry_credential-stored ws project_id id w r c (ok (some p)) f s t =
        let pn = to_kubernetes_project_name project_id in
        let read = store.read_found pn (to_kubernetes_registry_credential_name id) w r s in
        elim (Bool-cases (belongs_to_workspace_and_project r ws pn)) [
          | inl b ↦ rw (f, read, b, t) refl
          | inr b ↦ rw (f, read, b) refl
        ]

    -- A secret that is not this workspace's credential in this project is neither shown, changed
    -- nor deleted.
    pub registry_credential_refused :
        (ws : Workspace) (project_id id : Text) (p : Project) (w : W)
        (r : RegistryCredentialResource)
        → find_project o projects ws project_id w ≡ (ok (some p), w)
        → stored w
            (to_kubernetes_project_name project_id)
            (to_kubernetes_registry_credential_name id)
          ≡ some r
        → belongs_to_workspace_and_project r ws (to_kubernetes_project_name project_id) ≡ false
        → (find_registry_credential o enc projects secrets ws project_id id w ≡ (ok none, w))
          × ((input : UpdateRegistryCredentialInput)
              → update_registry_credential o enc projects secrets ws project_id id input w
                ≡ (err (not_found (units "Registry credential not found")), w))
          × (delete_registry_credential o enc projects secrets ws project_id id w
              ≡ (err (not_found (units "Registry credential not found")), w))
    unfolding find_registry_credential found_credential update_registry_credential
        delete_registry_credential get_owned_registry_credential owned_credential
        not_found_if_missing is_not_found_error units
    registry_credential_refused ws project_id id p w r f s b =
        let read =
          store.read_found (to_kubernetes_project_name project_id)
            (to_kubernetes_registry_credential_name id) w r s in
        let there = ensured o projects ws project_id p w f in
        (rw (there, read, b) refl, λ input. rw (there, read, b) refl, rw (there, read, b) refl)

    -- An update writes the trimmed password of the input, or the stored one where that is blank: it
    -- is what the new secret reads back. Likewise the name, the registry and the username are those
    -- of the input, or else those that were there.
    pub update_registry_credential-password :
        {Encodes : Text → Type 0} (is : IsEncoding enc Encodes) (ws : Workspace)
        (project_id id : Text) (p : Project) (input : UpdateRegistryCredentialInput) (w : W)
        (r : RegistryCredentialResource) (c : RegistryCredential) (password : Text)
        → find_project o projects ws project_id w ≡ (ok (some p), w)
        → stored w
            (to_kubernetes_project_name project_id)
            (to_kubernetes_registry_credential_name id)
          ≡ some r
        → belongs_to_workspace_and_project r ws (to_kubernetes_project_name project_id) ≡ true
        → to_registry_credential o enc projects secrets r ≡ ok c
        → password_of (optional input.password) (auth_password (to_docker_auth enc r))
          ≡ some password
        → non_empty (or_else (optional input.registry) c.registry) ≡ true
        → Encodes (
            build_docker_config_json enc
              (or_else (optional input.registry) c.registry)
              (or_else (optional input.username) c.username)
              password)
        → (c' : RegistryCredential) × (r' : RegistryCredentialResource) × (w' : W)
          × (update_registry_credential o enc projects secrets ws project_id id input w
              ≡ (ok c', w'))
          × (stored w'
                (to_kubernetes_project_name project_id)
                (to_kubernetes_registry_credential_name id)
              ≡ some r')
          × (auth_password (to_docker_auth enc r') ≡ some password)
          × (c'.id ≡ id)
          × (c'.name ≡ or_else (optional input.name) c.name)
          × (c'.registry ≡ or_else (optional input.registry) c.registry)
          × (c'.username ≡ or_else (optional input.username) c.username)
    unfolding update_registry_credential get_owned_registry_credential owned_credential
        or_bad_request
    update_registry_credential-password is ws project_id id p input w r c password f s b t k n e =
        let pn = to_kubernetes_project_name project_id in
        let name = to_kubernetes_registry_credential_name id in
        let body : RegistryCredentialResourceInput = record {
          name = or_else (optional input.name) c.name;
          registry = or_else (optional input.registry) c.registry;
          username = or_else (optional input.username) c.username;
          password = password;
        } in
        let read = store.read_found pn name w r s in
        let (r', w', written, kept, s') =
          store.applied pn name (build_registry_credential_resource enc ws pn name body) w in
        let shown =
          to_registry_credential_of_secret enc ws id project_id body kept o projects secrets in
        let made : RegistryCredential = record {
          id = id;
          project_id = project_id;
          name = body.name;
          registry = body.registry;
          username = body.username;
          created_at = to_date o.parse_date r'.creation_timestamp;
          updated_at = to_date o.parse_date r'.creation_timestamp;
        } in
        (
          made,
          r',
          w',
          rw (ensured o projects ws project_id p w f, read, b, t, k, written, shown) refl,
          s',
          rw (to_docker_auth_of_secret enc ws id project_id body kept is e, n) refl,
          refl,
          refl,
          refl,
          refl,
        )

    -- A credential that is created has the trimmed name, registry and username; under its id its
    -- workspace finds it, and no other does.
    pub create_registry_credential-find_registry_credential :
        (apart : KeepsProjects o projects secrets) (ws : Workspace)
        (input : CreateRegistryCredentialInput) (p : Project)
        (items : Option (List RegistryCredentialResource))
        (id name registry username password : Text) (w w' : W)
        → find_project o projects ws input.project_id w ≡ (ok (some p), w)
        → secrets.list_items
            (to_kubernetes_project_name input.project_id)
            (registry_credential_label_selector ws (to_kubernetes_project_name input.project_id))
            w
          ≡ (ok items, w)
        → leb 20 (
            length (
              owned_credentials o enc projects secrets ws
                (to_kubernetes_project_name input.project_id)
                items))
          ≡ false
        → o.next_id w ≡ (ok id, w')
        → optional (some input.name) ≡ some name
        → optional (some input.registry) ≡ some registry
        → optional (some input.username) ≡ some username
        → optional (some input.password) ≡ some password
        → stored w'
            (to_kubernetes_project_name input.project_id)
            (to_kubernetes_registry_credential_name id)
          ≡ none
        → (c : RegistryCredential) × (w'' : W) × (create_registry_credential o enc projects secrets
              ws input w
            ≡ (ok c, w''))
          × (c.id ≡ id)
          × (c.name ≡ name)
          × (c.registry ≡ registry)
          × (c.username ≡ username)
          × ((ws' : Workspace)
              → find_registry_credential o enc projects secrets ws' input.project_id id w'' ≡ (
                in_project
                    (find_project o projects ws' input.project_id w').0
                    (if ws.id == ws'.id then some c else none),
                w'',
              ))
    unfolding create_registry_credential ensure_registry_credential_quota required
    create_registry_credential-find_registry_credential apart ws input p items id name registry
          username password w w' f listed room next n g u q fresh =
        let pn = to_kubernetes_project_name input.project_id in
        let body : RegistryCredentialResourceInput = record {
          name = name;
          registry = registry;
          username = username;
          password = password;
        } in
        let secret =
          build_registry_credential_resource enc ws pn (to_kubernetes_registry_credential_name id)
            body in
        let same = secret_key_of_build enc ws pn (to_kubernetes_registry_credential_name id) body in
        let (r, w'', made, kept, s) = store.created pn secret w' (ap (stored w' pn) same ∙ fresh) in
        let shown =
          to_registry_credential_of_secret enc ws id input.project_id body kept o projects
            secrets in
        (
          _,
          w'',
          rw
              (
                ensured o projects ws input.project_id p w f,
                listed,
                room,
                next,
                n,
                g,
                u,
                q,
                made,
                shown,
              )
              refl,
          refl,
          refl,
          refl,
          refl,
          λ ws'.
              let owner : belongs_to_workspace_and_project r ws' pn ≡ (ws.id == ws'.id) = ground (
                arith,
                belongs_of_secret enc ws id input.project_id body kept ws' input.project_id,
                ==-self input.project_id,
              ) in
              rw owner at (
                find_registry_credential-stored ws' input.project_id id w'' r _
                  (find_project o projects ws' input.project_id w').0
                  (rw made at (apart.created ws' input.project_id pn secret w'))
                  (ap (stored w'' pn) (sym same) ∙ s) shown),
        )
