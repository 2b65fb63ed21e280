-- ===== src/Deployment/Times.antt =====
-- `toDate` and `toUpdatedAt`: the last change of a deployment.
use Prim.Native.Nat.{Ordering}
use kudeploy.Prelude.{
  ◌⊎◌, List-cases, ◌≡◌, refl, ap, ◌∙◌, true, false, Option, none, some, List, [], ◌∷◌, map, Text,
  filter, non_empty, or_else, if◌then◌else◌, arith, All, Bool-cases, inl, inr, any, not,
}
use kudeploy.Prelude.Int.{ℤ, pos, negsuc, int_ltb, int_beq}
use kudeploy.Kubernetes.Dates.{Date}
use kudeploy.Connection.Sort.{sort, insert, not_after}
use kudeploy.Deployment.Entity.{DeploymentCondition}

-- Here an invalid date becomes the epoch too.
unfoldable pub to_valid_date : (Text → Date) → Option Text → ℤ
unfolding non_empty
to_valid_date parse_date none = pos 0
to_valid_date parse_date (some value) =
    if non_empty value then or_else (parse_date value) (pos 0) else pos 0

-- the sign of `right - left`
abbrev pub later_first : ℤ → ℤ → Ordering
later_first left right =
    if int_ltb right left
    then Ordering.lt
    else if int_ltb left right
    then Ordering.gt
    else Ordering.eq

abbrev pub first_or : List ℤ → ℤ → ℤ
first_or [] fallback = fallback
first_or (t ∷ ts) fallback = t

unfoldable pub condition_times : (Text → Date) → List DeploymentCondition → List ℤ
unfolding to_valid_date filter
condition_times parse_date conditions =
    filter (λ t. int_ltb (pos 0) t)
      (map (λ c. to_valid_date parse_date c.last_transition_time) conditions)

unfoldable pub to_updated_at : (Text → Date) → List DeploymentCondition → ℤ → ℤ
unfolding condition_times sort
to_updated_at parse_date conditions fallback =
    first_or (sort later_first (condition_times parse_date conditions)) fallback

not_after-later_first : (x t : ℤ) → not_after (later_first x t) ≡ not (int_ltb x t)
not_after-later_first (pos a) (pos b) = ground arith
not_after-later_first (negsuc a) (negsuc b) = ground arith
not_after-later_first (pos a) (negsuc b) = refl
not_after-later_first (negsuc a) (pos b) = refl

not_before_trans : (x y z : ℤ) → int_ltb x y ≡ false → int_ltb y z ≡ false → int_ltb x z ≡ false
not_before_trans (pos a) (pos b) (pos c) h k = ground arith
not_before_trans (pos a) (negsuc b) (pos c) h k = ground arith
not_before_trans (negsuc a) (negsuc b) (negsuc c) h k = ground arith
not_before_trans (negsuc a) (pos b) z h k = ground arith
not_before_trans _ _ (negsuc c) h k = ground arith
not_before_trans (negsuc a) (negsuc b) (pos c) h k = ground arith

not_before_back : (x y : ℤ) → int_ltb x y ≡ true → int_ltb y x ≡ false
not_before_back (pos a) (pos b) h = ground arith
not_before_back (negsuc a) (negsuc b) h = ground arith
not_before_back (negsuc a) (pos b) h = refl
not_before_back (pos a) (negsuc b) h = ground arith

int_beq_self : (x : ℤ) → int_beq x x ≡ true
int_beq_self (pos a) = ground arith
int_beq_self (negsuc a) = ground arith

not_before_self : (x : ℤ) → int_ltb x x ≡ false
not_before_self (pos a) = ground arith
not_before_self (negsuc a) = ground arith

-- A time of the list that no other is after.
abbrev pub IsLatest : ℤ → List ℤ → Type 0
IsLatest t ts = (any (int_beq t) ts ≡ true) × All (λ u. int_ltb t u ≡ false) ts

earlier_too :
    (x t : ℤ) (ts : List ℤ)
    → int_ltb x t ≡ false
    → All (λ u. int_ltb t u ≡ false) ts
    → All (λ u. int_ltb x u ≡ false) ts
earlier_too x t [] h k = tt
earlier_too x t (u ∷ ts) h (k, ks) = (not_before_trans x t u h k, earlier_too x t ts h ks)

sort-IsLatest :
    (x : ℤ) (xs : List ℤ)
    → (t : ℤ) × (ts : List ℤ) × (sort later_first (x ∷ xs) ≡ t ∷ ts) × IsLatest t (x ∷ xs)
unfolding sort insert any
sort-IsLatest x [] = (x, [], refl, (rw (int_beq_self x) refl, (not_before_self x, tt)))
sort-IsLatest x (y ∷ ys) =
    let (t, ts, e, (here, latest)) = sort-IsLatest y ys in
    elim (Bool-cases (int_ltb x t)) [
      | inr keep ↦
          let order : not_after (later_first x t) ≡ true =
            not_after-later_first x t ∙ ap not keep in
          (
            x,
            t ∷ ts,
            rw (e, order) refl,
            (rw (int_beq_self x) refl, (not_before_self x, earlier_too x t (y ∷ ys) keep latest)),
          )
      | inl later ↦
          let order : not_after (later_first x t) ≡ false =
            not_after-later_first x t ∙ ap not later in
          (
            t,
            insert later_first x ts,
            rw (e, order) refl,
            (ground (arith, here), (not_before_back x t later, latest)),
          )
    ]

keep-IsLatest : {t t' : ℤ} {ts ts' : List ℤ} → t ≡ t' → ts ≡ ts' → IsLatest t' ts' → IsLatest t ts
keep-IsLatest p q latest = rw (p, q) latest

-- A deployment was last updated when the latest of its conditions changed; it falls back to the
-- time of its creation exactly when no condition has a time after the epoch.
pub to_updated_at-IsLatest :
    (parse_date : Text → Date) (conditions : List DeploymentCondition) (fallback : ℤ)
    → ((condition_times parse_date conditions ≡ [])
        × (to_updated_at parse_date conditions fallback ≡ fallback))
      ⊎ IsLatest
          (to_updated_at parse_date conditions fallback)
          (condition_times parse_date conditions)
unfolding to_updated_at
to_updated_at-IsLatest parse_date conditions fallback =
    elim (List-cases (condition_times parse_date conditions)) [
      | inl e ↦ inl (e, rw e refl)
      | inr (x, xs, e) ↦
          let (t, ts, sorted, latest) = sort-IsLatest x xs in
          let first : to_updated_at parse_date conditions fallback ≡ t =
            ap (λ l. first_or (sort later_first l) fallback) e
            ∙ ap (λ l. first_or l fallback) sorted in
          inr (keep-IsLatest first e latest)
    ]
