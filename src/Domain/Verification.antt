-- ===== src/Domain/Verification.antt =====
-- When a domain is verified, and that a name is taken once in a workspace.
use kudeploy.Prelude.{
  ◌≡◌, refl, Bool, false, none, some, List, [], Text, units, ◌==◌, nat_eq, list_eq, any, join,
  if◌then◌else◌, Bool-cases, inl, inr,
}
use kudeploy.Prelude.Exec.{Result, ok, err, bad_request}
use kudeploy.Domain.{
  Domain, Domains, pending, verified_domain, new_domain, not_proved, get_verification_txt_name,
  get_verification_txt_value, normalize_domain_name, create_domain, verify_domain,
  resolve_domain_txt, read_clock,
}

-- The resolver answers, and the parts of one record make up the expected value.
abbrev pub is_proved : Domain → Result (List (List Text)) → Bool
is_proved domain (ok records) = any (λ r. join [] r == get_verification_txt_value domain) records
is_proved domain (err e) = false

module _ {W : Type 0} (db : Domains W) where
  -- A domain becomes verified, at the time of the clock, exactly when the resolver answers with a
  -- record whose parts make up the value with the domain's token; a failure of the resolver and a
  -- wrong record give the same error, and then nothing is written.
  pub verify_domain-is_proved :
      (domain : Domain) (answer : Result (List (List Text))) (w w' w'' : W)
      → db.resolve_txt (get_verification_txt_name domain.name) w ≡ (answer, w')
      → db.flush (verified_domain domain (db.now w')) w' ≡ (ok tt, w'')
      → verify_domain db domain w ≡ (
          if is_proved domain answer
          then (ok (verified_domain domain (db.now w')), w'')
          else (err not_proved, w'))
  unfolding verify_domain resolve_domain_txt read_clock
  verify_domain-is_proved domain (err e) w w' w'' asked flushed = rw asked refl
  verify_domain-is_proved domain (ok records) w w' w'' asked flushed =
      elim (Bool-cases (any (λ r. join [] r == get_verification_txt_value domain) records)) [
        | inl e ↦ rw (asked, e, flushed) refl
        | inr e ↦ rw (asked, e) refl
      ]

  -- A name is taken by the domain that is created with it: it waits for its verification, and any
  -- other spelling of the name is refused in the same workspace, with no effect.
  pub create_domain-create_domain :
      (workspace name spelling token id : Text) (w w1 w2 w3 : W)
      → db.find_domain workspace (normalize_domain_name db name) w ≡ (ok none, w)
      → db.random_token w ≡ (ok token, w1)
      → db.next_id w1 ≡ (ok id, w2)
      → db.persist (new_domain id workspace (normalize_domain_name db name) token (db.now w2)) w2
        ≡ (ok tt, w3)
      → db.find_domain workspace (normalize_domain_name db name) w3 ≡ (
        ok (some (new_domain id workspace (normalize_domain_name db name) token (db.now w2))),
        w3,
      )
      → normalize_domain_name db spelling ≡ normalize_domain_name db name
      → (create_domain db workspace name w
          ≡ (ok (new_domain id workspace (normalize_domain_name db name) token (db.now w2)), w3))
        × ((new_domain id workspace (normalize_domain_name db name) token (db.now w2)).status
            ≡ pending)
        × (create_domain db workspace spelling w3
            ≡ (err (bad_request (units "Domain already exists in this workspace")), w3))
  unfolding create_domain read_clock new_domain
  create_domain-create_domain workspace name spelling token id w w1 w2 w3 free a b stored there
        same =
      (rw (free, a, b, stored) refl, refl, rw (same, there) refl)
