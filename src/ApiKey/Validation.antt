-- ===== src/ApiKey/Validation.antt =====
-- Creating a key and presenting it later.
use kudeploy.Prelude.{
  ◌≡◌, refl, true, some, Text, units, ◌==◌, nat_eq, list_eq, Bool-cases, inl, inr, if◌then◌else◌,
}
use kudeploy.Prelude.Exec.{Result, ok, err, unauthorized, bad_request}
use kudeploy.Prelude.Int.{ℤ}
use kudeploy.WorkspaceMember.Entity.{WorkspaceMember, disabled, same_status}
use kudeploy.ApiKey.{
  Keys, ApiKey, CreateApiKeyOptions, CreatedApiKey, ApiKeyValidation, is_past, create_key, validate,
  new_api_key, read_clock, find_validation_row, check_secret, load_if, load_row, accept_row,
  validate_parsed,
}
use kudeploy.ApiKey.Format.{
  is_hex, parse_api_key, assemble_api_key, parse_api_key-assemble_api_key,
  non_empty-assemble_api_key,
}

-- What a key is presented to: nothing after the clock and the member's status decides.
abbrev pub verdict : ApiKey → WorkspaceMember → Text → ℤ → Result ApiKeyValidation
unfolding units
verdict key member workspace now =
    if is_past key.expires_at now
    then err (unauthorized (units "API key has expired"))
    else if same_status member.status disabled
    then err (unauthorized (units "Workspace member is disabled"))
    else ok (record { api_key = key; workspace = workspace; workspace_member = member })

module _ {W : Type 0} (db : Keys W) where
  -- A text that ends with the digits of a stored key is accepted exactly when its secret is the one
  -- that the key was made with, the key has not expired, and its member is not disabled; the error
  -- says which of these fails, and a wrong secret looks like an unknown key.
  pub validate-verdict :
      (prefix secret given : Text) (key : ApiKey) (member : WorkspaceMember) (workspace : Text)
      (w : W)
      → is_hex 16 key.key_id ≡ true
      → is_hex 16 given ≡ true
      → db.find_by_key_id key.key_id w ≡ (ok (some key), w)
      → db.decrypt key.encrypted_secret w ≡ (ok secret, w)
      → db.load_workspace_member key.workspace key.member w ≡ (ok (some member), w)
      → db.find_workspace key.workspace w ≡ (ok workspace, w)
      → validate db (assemble_api_key prefix key.key_id given) w ≡ (
        if secret == given
            then verdict key member workspace (db.now w)
            else err (unauthorized (units "Invalid API key")),
        w,
      )
  unfolding validate validate_parsed find_validation_row check_secret load_if load_row accept_row
      read_clock verdict
  validate-verdict prefix secret given key member workspace w h k found opened loaded home =
      let parsed = parse_api_key-assemble_api_key prefix key.key_id given h k in
      let present = non_empty-assemble_api_key prefix key.key_id given h in
      elim (Bool-cases (secret == given)) [
        | inr wrong ↦ rw (present, parsed, found, opened, wrong) refl
        | inl right ↦ elim (Bool-cases (is_past key.expires_at (db.now w))) [
          | inl past ↦ rw (present, parsed, found, opened, right, loaded, home, past) refl
          | inr future ↦ elim (Bool-cases (same_status member.status disabled)) [
            | inl off ↦ rw (present, parsed, found, opened, right, loaded, home, future, off) refl
            | inr on ↦ rw (present, parsed, found, opened, right, loaded, home, future, on) refl
          ]
        ]
      ]

  -- Creating a key is refused for a disabled member and for a time that is not in the future;
  -- otherwise the key that is stored belongs to the member, and the text that is given out, once,
  -- is taken apart into its identifier and the secret that was encrypted.
  pub create_key-parse_api_key :
      (member : WorkspaceMember) (options : CreateApiKeyOptions) (key_id secret sealed id : Text)
      (w w1 w2 w3 w4 w5 : W)
      → db.random_hex w ≡ (ok key_id, w1)
      → db.random_hex w1 ≡ (ok secret, w2)
      → is_hex 16 key_id ≡ true
      → is_hex 16 secret ≡ true
      → db.encrypt secret w2 ≡ (ok sealed, w3)
      → db.next_id w3 ≡ (ok id, w4)
      → db.persist (new_api_key member options id key_id db.prefix sealed (db.now w4)) w4
        ≡ (ok tt, w5)
      → (made : CreatedApiKey) × (create_key db member options w ≡ (
          if same_status member.status disabled
          then (err (bad_request (units "Cannot create API key for disabled member")), w)
          else if is_past options.expires_at (db.now w)
          then (err (bad_request (units "API key expiration must be in the future")), w)
          else (ok made, w5)))
        × (made.entity.member ≡ member.id)
        × (made.entity.workspace ≡ member.workspace)
        × (made.entity.expires_at ≡ options.expires_at)
        × (made.entity.encrypted_secret ≡ sealed)
        × (parse_api_key made.api_key
            ≡ some (record { key_id = made.entity.key_id; secret = secret }))
  unfolding create_key read_clock new_api_key
  create_key-parse_api_key member options key_id secret sealed id w w1 w2 w3 w4 w5 a b h k c e s = (
    record {
      entity = new_api_key member options id key_id db.prefix sealed (db.now w4);
      api_key = assemble_api_key db.prefix key_id secret;
    },
    elim (Bool-cases (same_status member.status disabled)) [
      | inl off ↦ rw off refl
      | inr on ↦ elim (Bool-cases (is_past options.expires_at (db.now w))) [
        | inl past ↦ rw (on, past) refl
        | inr future ↦ rw (on, future, a, b, c, e, s) refl
      ]
    ],
    refl,
    refl,
    refl,
    refl,
    parse_api_key-assemble_api_key db.prefix key_id secret h k,
  )
