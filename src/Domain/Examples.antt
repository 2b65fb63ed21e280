-- ===== src/Domain/Examples.antt =====
-- The theorems on domains with a table in memory and a resolver with one record.
use kudeploy.Prelude.{
  ◌≡◌, refl, true, List, [], ◌∷◌, units, list_beq, join, any, ◌==◌, nat_eq, list_eq, if◌then◌else◌,
  find, ◌&&◌, trim,
}
use kudeploy.Prelude.Exec.{ok, err, bad_request}
use kudeploy.Prelude.Int.{pos}
use kudeploy.Domain.{
  Domain, Domains, pending, verified_domain, new_domain, not_proved, get_verification_txt_value,
  create_domain, verify_domain, normalize_domain_name, strip_dot,
}
use kudeploy.Domain.Verification.{is_proved, verify_domain-is_proved, create_domain-create_domain}

abbrev domains : Domains (List Domain)
domains = record {
  now = λ w. pos 10;
  lower_case = λ s. s;
  random_token = λ w. (ok (units "t0"), w);
  next_id = λ w. (ok (units "1"), w);
  resolve_txt = λ name w. (ok ((units "domain-" ∷ units "verify=t0" ∷ []) ∷ []), w);
  find_domain = λ ws name w. (ok (find (λ (d : Domain). d.workspace == ws && d.name == name) w), w);
  persist = λ d w. (ok tt, d ∷ w);
  flush = λ d w. (ok tt, d ∷ []);
}

abbrev home : Domain
home = new_domain (units "1") (units "5") (units "a.io") (units "t0") (pos 10)

verify_domain-is_proved_example : verify_domain domains home (home ∷ []) ≡ (
    if is_proved home (ok ((units "domain-" ∷ units "verify=t0" ∷ []) ∷ []))
    then (ok (verified_domain home (pos 10)), verified_domain home (pos 10) ∷ [])
    else (err not_proved, home ∷ []))
verify_domain-is_proved_example =
    verify_domain-is_proved domains home (ok ((units "domain-" ∷ units "verify=t0" ∷ []) ∷ []))
      (home ∷ []) (home ∷ []) (verified_domain home (pos 10) ∷ []) refl refl

-- the record above is a proof for this domain
is_proved-home : is_proved home (ok ((units "domain-" ∷ units "verify=t0" ∷ []) ∷ [])) ≡ true
unfolding units list_beq join any get_verification_txt_value new_domain
is_proved-home = refl

create_domain-create_domain_example :
    (create_domain domains (units "5") (units "a.io") [] ≡ (ok home, home ∷ []))
    × (home.status ≡ pending)
    × (create_domain domains (units "5") (units " a.io.") (home ∷ [])
        ≡ (err (bad_request (units "Domain already exists in this workspace")), home ∷ []))
unfolding units list_beq find normalize_domain_name trim strip_dot new_domain
create_domain-create_domain_example =
    create_domain-create_domain domains (units "5") (units "a.io") (units " a.io.") (units "t0")
      (units "1") [] [] [] (home ∷ []) refl refl refl refl refl refl
