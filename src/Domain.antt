-- ===== src/Domain.antt =====
-- app/domain/domain.service.ts. The table of domains, the resolver of TXT records, the clock and
-- the tables of `toLowerCase` are parameters.
pub mod Verification
mod Examples
use kudeploy.Prelude.{
  ℕ, Bool, true, false, not, Option, none, some, List, [], ◌∷◌, ◌++◌, Text, units, ◌==◌, nat_eq,
  list_eq, any, join, is_some, trim, if◌then◌else◌,
}
use kudeploy.Prelude.Exec.{
  Result, ok, err, Failure, bad_request, Exec, pure, throw, guard, try_catch, ◌>>=◌, ◌>>◌,
}
use kudeploy.Prelude.Int.{ℤ}

pub data DomainStatus : Type 0 where
  pending verified : DomainStatus

pub record Domain : Type 0 where
  pub id : Text
  pub name : Text
  pub status : DomainStatus
  pub verification_token : Text
  pub verified_at : Option ℤ
  pub created_at : ℤ
  pub updated_at : ℤ
  pub workspace : Text

pub record Domains (W : Type 0) : Type 0 where
  pub now : W → ℤ
  pub lower_case : Text → Text
  -- `randomBytes(16).toString('hex')`, and the id of a new entity
  pub random_token : Exec W Text
  pub next_id : Exec W Text
  -- each record is a list of strings
  pub resolve_txt : Text → Exec W (List (List Text))
  -- `findOne({ workspace, name })`, `persist(domain).flush()`, and a flush after assignments
  pub find_domain : Text → Text → Exec W (Option Domain)
  pub persist : Domain → Exec W (Unit {0})
  pub flush : Domain → Exec W (Unit {0})

-- `s.replace(/\.$/, '')`
unfoldable pub strip_dot : Text → Text
strip_dot [] = []
strip_dot (c ∷ []) = if c == 46 then [] else c ∷ []
strip_dot (c ∷ d ∷ s) = c ∷ strip_dot (d ∷ s)

unfoldable pub get_verification_txt_name : Text → Text
unfolding units
get_verification_txt_name domain_name = units "_kudeploy." ++ domain_name

unfoldable pub get_verification_txt_value : Domain → Text
unfolding units
get_verification_txt_value domain = units "domain-verify=" ++ domain.verification_token

unfoldable pub new_domain : Text → Text → Text → Text → ℤ → Domain
new_domain id workspace name token now = record {
  id = id;
  name = name;
  status = pending;
  verification_token = token;
  verified_at = none;
  created_at = now;
  updated_at = now;
  workspace = workspace;
}

abbrev pub verified_domain : Domain → ℤ → Domain
verified_domain domain now = record domain { status = verified; verified_at = some now }

unfoldable pub not_proved : Failure
unfolding units
not_proved = bad_request (units "Domain TXT record does not contain the verification token")

module _ {W : Type 0} (db : Domains W) where
  unfoldable pub normalize_domain_name : Text → Text
  unfolding strip_dot trim
  normalize_domain_name name = strip_dot (db.lower_case (trim name))

  unfoldable pub read_clock : Exec W ℤ
  read_clock w = (ok (db.now w), w)

  unfoldable pub create_domain : Text → Text → Exec W Domain
  unfolding read_clock units
  create_domain workspace input_name = do
    let name = normalize_domain_name input_name
    existing ← db.find_domain workspace name
    guard (not (is_some existing)) (bad_request (units "Domain already exists in this workspace"))
    token ← db.random_token
    id ← db.next_id
    now ← read_clock
    db.persist (new_domain id workspace name token now)
    pure (new_domain id workspace name token now)

  unfoldable pub resolve_domain_txt : Text → Exec W (List (List Text))
  resolve_domain_txt name = try_catch (db.resolve_txt name) (λ e. throw not_proved)

  unfoldable pub verify_domain : Domain → Exec W Domain
  unfolding resolve_domain_txt read_clock any join
  verify_domain domain = do
    records ← resolve_domain_txt (get_verification_txt_name domain.name)
    guard (any (λ r. join [] r == get_verification_txt_value domain) records) not_proved
    now ← read_clock
    db.flush (verified_domain domain now)
    pure (verified_domain domain now)
