-- ===== src/ApiKey.antt =====
-- app/api-key/api-key.service.ts and utils/extract-api-key.util.ts. The entity manager, the cipher,
-- the random bytes and the configured prefix are parameters.
pub mod Format
pub mod Validation
mod Examples
use kudeploy.Prelude.{
  ℕ, Bool, true, false, not, ◌&&◌, ◌||◌, Option, none, some, List, [], ◌∷◌, ◌++◌, Text, units, ◌==◌,
  nat_eq, list_eq, or_else, non_empty, if◌then◌else◌, starts_with, drop, length, trim,
}
use kudeploy.Prelude.Exec.{
  Result, ok, err, Failure, bad_request, unauthorized, Exec, pure, throw, guard, ◌>>=◌, ◌>>◌,
}
use kudeploy.Prelude.Int.{ℤ, int_ltb}
use kudeploy.WorkspaceMember.Entity.{WorkspaceMember, disabled, same_status}
use kudeploy.ApiKey.Format.{ParsedApiKey, parse_api_key, assemble_api_key}

-- `workspace` and `member` are the ids of the referenced entities.
pub record ApiKey : Type 0 where
  pub id : Text
  pub name : Text
  pub key_id : Text
  pub key_prefix : Text
  pub encrypted_secret : Text
  pub created_at : ℤ
  pub updated_at : ℤ
  pub last_used_at : Option ℤ
  pub expires_at : Option ℤ
  pub workspace : Text
  pub member : Text

pub record CreateApiKeyOptions : Type 0 where
  pub name : Text
  pub expires_at : Option ℤ

pub record CreatedApiKey : Type 0 where
  pub entity : ApiKey
  pub api_key : Text

pub record ApiKeyValidation : Type 0 where
  pub api_key : ApiKey
  pub workspace : Text
  pub workspace_member : WorkspaceMember

pub record Keys (W : Type 0) : Type 0 where
  -- `new Date()`, which the time of the outside world gives
  pub now : W → ℤ
  pub prefix : Text
  -- `randomBytes(8).toString('hex')`, and the id of a new entity
  pub random_hex : Exec W Text
  pub next_id : Exec W Text
  pub encrypt : Text → Exec W Text
  pub decrypt : Text → Exec W Text
  -- `persist(entity).flush()`, and a flush after assignments
  pub persist : ApiKey → Exec W (Unit {0})
  pub flush : ApiKey → Exec W (Unit {0})
  -- the reads of `findValidationRow`, without row level security
  pub find_by_key_id : Text → Exec W (Option ApiKey)
  pub load_workspace_member : Text → Text → Exec W (Option WorkspaceMember)
  pub find_workspace : Text → Exec W Text

-- `expiresAt && expiresAt <= new Date()`
abbrev pub is_past : Option ℤ → ℤ → Bool
is_past none now = false
is_past (some t) now = not (int_ltb now t)

unfoldable pub new_api_key :
    WorkspaceMember → CreateApiKeyOptions → Text → Text → Text → Text → ℤ → ApiKey
new_api_key member options id key_id key_prefix encrypted_secret now = record {
  id = id;
  name = options.name;
  key_id = key_id;
  key_prefix = key_prefix;
  encrypted_secret = encrypted_secret;
  created_at = now;
  updated_at = now;
  last_used_at = none;
  expires_at = options.expires_at;
  workspace = member.workspace;
  member = member.id;
}

module _ {W : Type 0} (db : Keys W) where
  unfoldable pub read_clock : Exec W ℤ
  read_clock w = (ok (db.now w), w)

  unfoldable pub create_key : WorkspaceMember → CreateApiKeyOptions → Exec W CreatedApiKey
  unfolding read_clock new_api_key units
  create_key member options = do
    guard (not (same_status member.status disabled))
        (bad_request (units "Cannot create API key for disabled member"))
    now ← read_clock
    guard (not (is_past options.expires_at now))
        (bad_request (units "API key expiration must be in the future"))
    key_id ← db.random_hex
    secret ← db.random_hex
    encrypted_secret ← db.encrypt secret
    id ← db.next_id
    created_at ← read_clock
    let entity = new_api_key member options id key_id db.prefix encrypted_secret created_at
    db.persist entity
    pure (record { entity = entity; api_key = assemble_api_key db.prefix key_id secret })

  -- the steps of `findValidationRow` once the key is known
  unfoldable pub load_row : ApiKey → Option WorkspaceMember → Exec W (Option ApiKeyValidation)
  load_row key none = pure none
  load_row key (some member) = do
    workspace ← db.find_workspace key.workspace
    pure (some (record { api_key = key; workspace = workspace; workspace_member = member }))

  unfoldable pub load_if : ApiKey → Bool → Exec W (Option ApiKeyValidation)
  unfolding load_row
  load_if key false = pure none
  load_if key true = do
    member ← db.load_workspace_member key.workspace key.member
    load_row key member

  unfoldable pub check_secret : ParsedApiKey → Option ApiKey → Exec W (Option ApiKeyValidation)
  unfolding load_if
  check_secret parsed none = pure none
  check_secret parsed (some key) = do
    secret ← db.decrypt key.encrypted_secret
    load_if key (secret == parsed.secret)

  unfoldable pub find_validation_row : ParsedApiKey → Exec W (Option ApiKeyValidation)
  unfolding check_secret
  find_validation_row parsed = do key ← db.find_by_key_id parsed.key_id; check_secret parsed key

  unfoldable pub accept_row : Option ApiKeyValidation → Exec W ApiKeyValidation
  unfolding read_clock units
  accept_row none = throw (unauthorized (units "Invalid API key"))
  accept_row (some row) = do
    now ← read_clock
    guard (not (is_past row.api_key.expires_at now)) (unauthorized (units "API key has expired"))
    guard (not (same_status row.workspace_member.status disabled))
        (unauthorized (units "Workspace member is disabled"))
    pure row

  unfoldable pub validate_parsed : Option ParsedApiKey → Exec W ApiKeyValidation
  unfolding find_validation_row accept_row units
  validate_parsed none = throw (unauthorized (units "Invalid API key"))
  validate_parsed (some parsed) = do row ← find_validation_row parsed; accept_row row

  unfoldable pub validate : Text → Exec W ApiKeyValidation
  unfolding validate_parsed non_empty units
  validate api_key =
      if non_empty api_key
      then validate_parsed (parse_api_key api_key)
      else throw (unauthorized (units "Missing API key"))

  unfoldable pub update_name : ApiKey → Option Text → Exec W ApiKey
  update_name key name = do
    let renamed = record key { name = or_else name key.name }
    db.flush renamed
    pure renamed

  unfoldable pub record_usage : ApiKey → Exec W ApiKey
  unfolding read_clock
  record_usage key = do
    now ← read_clock
    let used = record key { last_used_at = some now; updated_at = now }
    db.flush used
    pure used

-- The two headers of a request that may carry a key, where they are strings.
pub record KeyHeaders : Type 0 where
  pub authorization : Option Text
  pub x_api_key : Option Text

-- `s || null`
abbrev pub or_null : Text → Option Text
or_null s = if non_empty s then some s else none

unfoldable pub header_key : Option Text → Option Text
unfolding non_empty
header_key none = none
header_key (some value) = or_null value

unfoldable pub extract_api_key : Option KeyHeaders → Option Text
unfolding header_key trim starts_with drop units
extract_api_key none = none
extract_api_key (some headers) = elim headers.authorization [
  | none ↦ header_key headers.x_api_key
  | some value ↦
      if starts_with value (units "Bearer ")
      then or_null (trim (drop (length (units "Bearer ")) value))
      else header_key headers.x_api_key
]
