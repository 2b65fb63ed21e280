-- ===== src/ApiKey/Examples.antt =====
-- The theorems on keys with one key in memory.
use kudeploy.Prelude.{
  ◌≡◌, refl, true, some, Text, List, [], ◌∷◌, units, ◌==◌, nat_eq, list_eq, if◌then◌else◌, all,
}
use kudeploy.Prelude.Exec.{ok, err, unauthorized, bad_request}
use kudeploy.Prelude.Int.{pos}
use kudeploy.WorkspaceMember.Entity.{WorkspaceMember, disabled, same_status}
use kudeploy.WorkspaceMember.Service.{new_member}
use kudeploy.ApiKey.{Keys, ApiKey, CreatedApiKey, is_past, create_key, validate, new_api_key}
use kudeploy.ApiKey.Format.{is_hex, parse_api_key, assemble_api_key}
use kudeploy.ApiKey.Validation.{verdict, validate-verdict, create_key-parse_api_key}

abbrev digits : Text
digits = units "0123456789abcdef"

abbrev wrong_digits : Text
wrong_digits = units "fedcba9876543210"

abbrev alice : WorkspaceMember
alice = new_member (units "1") (pos 1) (units "Alice") (units "5")

abbrev key : ApiKey
key =
    new_api_key alice (record { name = units "ci"; expires_at = some (pos 50) }) (units "3") digits
      (units "sk-") digits (pos 1)

abbrev keys : Keys (List ApiKey)
keys = record {
  now = λ w. pos 10;
  prefix = units "sk-";
  random_hex = λ w. (ok digits, w);
  next_id = λ w. (ok (units "3"), w);
  encrypt = λ s w. (ok s, w);
  decrypt = λ s w. (ok s, w);
  persist = λ k w. (ok tt, k ∷ w);
  flush = λ k w. (ok tt, w);
  find_by_key_id = λ id w. (ok (some key), w);
  load_workspace_member = λ ws id w. (ok (some alice), w);
  find_workspace = λ id w. (ok id, w);
}

digits-is_hex : is_hex 16 digits ≡ true
unfolding is_hex units all
digits-is_hex = refl

wrong_digits-is_hex : is_hex 16 wrong_digits ≡ true
unfolding is_hex units all
wrong_digits-is_hex = refl

-- The text has another secret than the key.
validate-verdict_example :
    validate keys (assemble_api_key (units "sk-") key.key_id wrong_digits) [] ≡ (
      if digits == wrong_digits
          then verdict key alice (units "5") (pos 10)
          else err (unauthorized (units "Invalid API key")),
      [],
    )
unfolding new_api_key new_member
validate-verdict_example =
    validate-verdict keys (units "sk-") digits wrong_digits key alice (units "5") [] digits-is_hex
      wrong_digits-is_hex refl refl refl refl

create_key-parse_api_key_example :
    (made : CreatedApiKey) × (create_key keys alice
        (record { name = units "ci"; expires_at = some (pos 50) })
        []
      ≡ (if same_status alice.status disabled
          then (err (bad_request (units "Cannot create API key for disabled member")), [])
          else if is_past (some (pos 50)) (pos 10)
          then (err (bad_request (units "API key expiration must be in the future")), [])
          else (
            ok made,
            new_api_key alice
                  (record { name = units "ci"; expires_at = some (pos 50) })
                  (units "3")
                  digits
                  (units "sk-")
                  digits
                  (pos 10)
                ∷ [],
          )))
    × (made.entity.member ≡ alice.id)
    × (made.entity.workspace ≡ alice.workspace)
    × (made.entity.expires_at ≡ some (pos 50))
    × (made.entity.encrypted_secret ≡ digits)
    × (parse_api_key made.api_key ≡ some (record { key_id = made.entity.key_id; secret = digits }))
create_key-parse_api_key_example =
    create_key-parse_api_key keys alice (record { name = units "ci"; expires_at = some (pos 50) })
      digits digits digits (units "3") [] [] [] [] [] _ refl refl digits-is_hex digits-is_hex refl
      refl refl
