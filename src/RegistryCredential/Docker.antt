-- ===== src/RegistryCredential/Docker.antt =====
-- The docker configuration of registry-credential.service.ts: what a secret says of a registry, a
-- user and a password.
use kudeploy.Prelude.{
  ℕ, suc, Option, none, some, List, [], ◌∷◌, ◌++◌, Text, ◌==◌, nat_eq, non_empty, if◌then◌else◌,
  take, drop,
}

pub record DockerAuthEntry : Type 0 where
  pub auth : Option Text
  pub username : Option Text
  pub password : Option Text

-- A key with its entry, which may be `null`.
pub record DockerConfig : Type 0 where
  pub auths : Option (List (Text × Option DockerAuthEntry))

-- JSON and `Buffer`. `parse` is `none` where `JSON.parse` throws; what it gives has the type that
-- the code casts it to. Base64 goes by way of UTF-8.
pub record Encoding : Type 0 where
  pub stringify : DockerConfig → Text
  pub parse : Text → Option DockerConfig
  pub to_base64 : Text → Text
  pub of_base64 : Text → Text

pub record DockerAuth : Type 0 where
  pub registry : Text
  pub username : Option Text
  pub password : Option Text
  pub auth : Option Text

abbrev pub colon : ℕ
colon = 58

unfoldable pub docker_config : Text → Text → Text → Text → DockerConfig
docker_config registry auth username password = record {
  auths = some (
      (
        registry,
        some (record { auth = some auth; username = some username; password = some password }),
      )
      ∷ []);
}

unfoldable pub build_docker_config_json : Encoding → Text → Text → Text → Text
unfolding docker_config
build_docker_config_json enc registry username password =
    enc.stringify
      (docker_config registry (enc.to_base64 (username ++ (colon ∷ password))) username password)

-- `text.indexOf(c)`; -1 is `none`
unfoldable pub index_of : ℕ → Text → Option ℕ
index_of c [] = none
index_of c (x ∷ s) =
    let rest = index_of c s in
    if x == c then some 0 else elim rest [ none ↦ none | some i ↦ some (suc i) ]

abbrev split_at : Text → Option ℕ → Option (Text × Text)
split_at decoded none = none
split_at decoded (some i) = some (take i decoded, drop (suc i) decoded)

-- the username and the password
unfoldable pub decode_docker_auth : Encoding → Option Text → Option (Text × Text)
unfolding non_empty index_of take drop
decode_docker_auth enc none = none
decode_docker_auth enc (some auth) =
    if non_empty auth
    then split_at (enc.of_base64 auth) (index_of colon (enc.of_base64 auth))
    else none

abbrev pub or_part : Option Text → Option Text → Option Text
or_part none b = b
or_part (some a) b = some a

abbrev pub username_part : Option (Text × Text) → Option Text
username_part none = none
username_part (some (username, password)) = some username

abbrev pub password_part : Option (Text × Text) → Option Text
password_part none = none
password_part (some (username, password)) = some password

unfoldable pub of_entry : Encoding → Text → DockerAuthEntry → DockerAuth
unfolding decode_docker_auth
of_entry enc registry entry = record {
  registry = registry;
  username = or_part entry.username (username_part (decode_docker_auth enc entry.auth));
  password = or_part entry.password (password_part (decode_docker_auth enc entry.auth));
  auth = entry.auth;
}

-- the first entry
unfoldable pub of_auths :
    Encoding → Option (List (Text × Option DockerAuthEntry)) → Option DockerAuth
unfolding of_entry non_empty
of_auths enc (some ((registry, some entry) ∷ rest)) =
    if non_empty registry then some (of_entry enc registry entry) else none
of_auths enc _ = none

abbrev of_config : Encoding → Option DockerConfig → Option DockerAuth
of_config enc none = none
of_config enc (some config) = of_auths enc config.auths

-- `toDockerAuth`, by what the secret holds
unfoldable pub docker_auth_of : Encoding → Option Text → Option DockerAuth
unfolding of_auths non_empty
docker_auth_of enc none = none
docker_auth_of enc (some encoded) =
    if non_empty encoded then of_config enc (enc.parse (enc.of_base64 encoded)) else none
