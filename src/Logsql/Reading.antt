-- ===== src/Logsql/Reading.antt =====
-- A reader of the filters of app/kubernetes-logs/logsql.ts, by the documented syntax of LogsQL.
use mathlib.Core.List.{append_assoc}
use kudeploy.Prelude.{
  ℕ, ◌≡◌, refl, ap, ◌∙◌, Bool, true, false, ◌&&◌, ◌||◌, Option, none, some, [], ◌∷◌, ◌++◌, Text,
  leb, not, and-eq-true, ◌==◌, nat_eq, all, if◌then◌else◌, nat_beq_iff, arith, Bool-cases, inl, inr,
}
use kudeploy.Promql.{replace_unit, prometheus_string}
use kudeploy.Promql.Quoting.{cons_first, read_quoted, read_quoted-prometheus_string}
use kudeploy.Logsql.{is_letter, is_word, is_plain, logs_ql_field, logs_ql_string, exact_filter}

abbrev pub with_unit : ℕ → Text × Text → Text × Text
with_unit c (s, rest) = (c ∷ s, rest)

-- What LogsQL has in a word without quotes: letters of ASCII, digits and the underscore.
abbrev between : ℕ → ℕ → ℕ → Bool
between low high c = leb low c && leb c high

abbrev pub starts_word : ℕ → Bool
starts_word c = between 65 90 c || (between 97 122 c || c == 95)

abbrev pub in_word : ℕ → Bool
in_word c = starts_word c || between 48 57 c

-- the longest word at the start, and what follows
unfoldable pub read_word : Text → Text × Text
read_word [] = ([], [])
read_word (c ∷ s) = let rest = read_word s in if in_word c then with_unit c rest else ([], c ∷ s)

-- The rest of a field in backticks, and what follows it. Nothing is escaped between backticks.
unfoldable pub read_ticked : Text → Option (Text × Text)
read_ticked [] = none
read_ticked (c ∷ s) =
    let rest = read_ticked s in if c == 96 then some ([], s) else cons_first c rest

-- A field is a word that does not start with a digit, or stands in backticks.
unfoldable pub read_field : Text → Option (Text × Text)
read_field [] = none
read_field (c ∷ s) =
    if c == 96 then read_ticked s else if starts_word c then some (read_word (c ∷ s)) else none

abbrev pub with_field : Text → Option (Text × Text) → Option (Text × Text × Text)
with_field field none = none
with_field field (some (value, rest)) = some (field, value, rest)

abbrev pub read_value : Option (Text × Text) → Option (Text × Text × Text)
read_value (some (field, c ∷ d ∷ s)) =
    if c == 58 && d == 61 then with_field field (read_quoted s) else none
read_value _ = none

-- `field:="value"`, and what follows
unfoldable pub read_exact : Text → Option (Text × Text × Text)
unfolding read_field
read_exact s = read_value (read_field s)

read_word-append : (s t : Text) → all is_word s ≡ true → read_word (s ++ (58 ∷ t)) ≡ (s, 58 ∷ t)
unfolding read_word all
read_word-append [] t e = refl
read_word-append (c ∷ s) t e = elim (Bool-cases (is_word c)) [
  | inl f ↦
      let tail : all is_word s ≡ true = ground arith in
      let kept : in_word c ≡ true = f in rw (kept, read_word-append s t tail) refl
  | inr f ↦ ground arith
]

-- neither a backslash nor a backtick
abbrev pub is_raw : ℕ → Bool
is_raw x = not (x == 92) && not (x == 96)

abbrev two_passes : Text → Text
two_passes s = replace_unit 96 (92 ∷ 96 ∷ []) (replace_unit 92 (92 ∷ 92 ∷ []) s)

raw_unit : (x : ℕ) → is_raw x ≡ true → ((x == 92) ≡ false) × ((x == 96) ≡ false)
raw_unit x h = (ground arith, ground arith)

raw_replace : (c : ℕ) (r s : Text) → all (λ x. not (x == c)) s ≡ true → replace_unit c r s ≡ s
unfolding replace_unit all
raw_replace c r [] h = refl
raw_replace c r (x ∷ s) h = elim (Bool-cases (x == c)) [
  | inl e ↦ let bad : false ≡ true = rw e at h in ground arith
  | inr e ↦
      let tail : all (λ y. not (y == c)) s ≡ true = rw e at h in
      rw e (ap (◌∷◌ x) (raw_replace c r s tail))
]

raw_parts :
    (s : Text)
    → all is_raw s ≡ true
    → (all (λ x. not (x == 92)) s ≡ true) × (all (λ x. not (x == 96)) s ≡ true)
unfolding all
raw_parts [] h = (refl, refl)
raw_parts (x ∷ s) h =
    let (here, later) = and-eq-true (is_raw x) (all is_raw s) h in
    let (back, tick) = and-eq-true (not (x == 92)) (not (x == 96)) here in
    let (backs, ticks) = raw_parts s later in (rw (back, backs) refl, rw (tick, ticks) refl)

two_passes-raw : (s : Text) → all is_raw s ≡ true → two_passes s ≡ s
two_passes-raw s h =
    let (backs, ticks) = raw_parts s h in
    ap (replace_unit 96 (92 ∷ 96 ∷ [])) (raw_replace 92 (92 ∷ 92 ∷ []) s backs)
    ∙ raw_replace 96 (92 ∷ 96 ∷ []) s ticks

read_ticked-raw :
    (s rest : Text)
    → all (λ x. not (x == 96)) s ≡ true
    → read_ticked (s ++ 96 ∷ rest) ≡ some (s, rest)
unfolding read_ticked all
read_ticked-raw [] rest h = refl
read_ticked-raw (x ∷ s) rest h =
    let (here, later) = and-eq-true (not (x == 96)) (all (λ y. not (y == 96)) s) h in
    let differs : (x == 96) ≡ false = ground arith in
    rw (differs, read_ticked-raw s rest later) refl

letter-not_tick : (c : ℕ) → is_letter c ≡ true → (c == 96) ≡ false
letter-not_tick c e = elim (Bool-cases (c == 96)) [
  | inl f ↦
      let same : c ≡ 96 = (nat_beq_iff c 96).0 f in
      let bad : false ≡ true = rw same at e in ground arith
  | inr f ↦ f
]

read_field-plain :
    (name t : Text) → is_plain name ≡ true → read_field (name ++ (58 ∷ t)) ≡ some (name, 58 ∷ t)
unfolding read_field is_plain all
read_field-plain [] t e = ground arith
read_field-plain (c ∷ s) t e = elim (Bool-cases (is_letter c)) [
  | inl f ↦
      let tail : all is_word s ≡ true = rw f at e in
      let words : all is_word (c ∷ s) ≡ true = rw f tail in
      let kept : starts_word c ≡ true = f in
      rw (letter-not_tick c f, kept) (ap some (read_word-append (c ∷ s) t words))
  | inr f ↦ ground arith
]

read_field-ticked :
    (name t : Text)
    → all is_raw name ≡ true
    → read_field (96 ∷ (two_passes name ++ (96 ∷ [])) ++ (58 ∷ t)) ≡ some (name, 58 ∷ t)
unfolding read_field
read_field-ticked name t h =
    ap read_ticked (
      append_assoc (two_passes name) (96 ∷ []) (58 ∷ t)
      ∙ ap (λ u. u ++ 96 ∷ 58 ∷ t) (two_passes-raw name h))
    ∙ read_ticked-raw name (58 ∷ t) (raw_parts name h).1

read_field-logs_ql_field :
    (name t : Text)
    → all is_raw name ≡ true
    → read_field (logs_ql_field name ++ (58 ∷ t)) ≡ some (name, 58 ∷ t)
unfolding logs_ql_field
read_field-logs_ql_field name t h = elim (Bool-cases (is_plain name)) [
  | inl e ↦ rw e (read_field-plain name t e)
  | inr e ↦ rw e (read_field-ticked name t h)
]

read_quoted-logs_ql_string :
    (value rest : Text) → read_quoted (logs_ql_string value ++ rest) ≡ some (value, rest)
unfolding logs_ql_string prometheus_string
read_quoted-logs_ql_string value rest = read_quoted-prometheus_string value rest

-- A filter for an exact value is read as that field and that value, whatever the value holds and
-- whatever follows, for a field without backslashes and backticks.
pub read_exact-exact_filter :
    (name value rest : Text)
    → all is_raw name ≡ true
    → read_exact (exact_filter name value ++ rest) ≡ some (name, value, rest)
unfolding read_exact exact_filter
read_exact-exact_filter name value rest h =
    ap read_exact (append_assoc (logs_ql_field name) (58 ∷ 61 ∷ logs_ql_string value) rest)
    ∙ ap read_value (read_field-logs_ql_field name (61 ∷ (logs_ql_string value ++ rest)) h)
    ∙ ap (with_field name) (read_quoted-logs_ql_string value rest)
