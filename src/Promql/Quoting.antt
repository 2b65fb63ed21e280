-- ===== src/Promql/Quoting.antt =====
-- Readers of the strings and patterns of app/kubernetes-metrics/promql.ts, by the syntax of PromQL
-- and RE2.
use mathlib.Core.List.{append_assoc}
use kudeploy.Prelude.{
  ℕ, ◌≡◌, refl, sym, ap, ◌∙◌, Bool, true, false, ◌||◌, Option, none, some, List, [], ◌∷◌, ◌++◌,
  Text, units, ◌==◌, nat_eq, any, if◌then◌else◌, nat_beq_iff, arith, Bool-cases, inl, inr,
}
use kudeploy.Promql.{replace_unit, prometheus_string, escape_regex, is_special}

abbrev pub cons_first : ℕ → Option (Text × Text) → Option (Text × Text)
cons_first c none = none
cons_first c (some (s, rest)) = some (c ∷ s, rest)

-- The rest of a string in double quotes, as PromQL reads it, and what follows the string; the
-- Boolean tells that a backslash came before. A line end must be escaped.
unfoldable pub read_string : Bool → Text → Option (Text × Text)
read_string escaped [] = none
read_string true (c ∷ s) =
    let rest = read_string false s in
    if c == 110 then cons_first 10 rest else if c == 92 || c == 34 then cons_first c rest else none
read_string false (c ∷ s) =
    let rest = read_string false s in
    let after_backslash = read_string true s in
    if c == 34
    then some ([], s)
    else if c == 92
    then after_backslash
    else if c == 10
    then none
    else cons_first c rest

abbrev pub read_quoted : Text → Option (Text × Text)
read_quoted [] = none
read_quoted (c ∷ s) = if c == 34 then read_string false s else none

abbrev escape_unit : ℕ → Text
escape_unit x =
    if x == 92
    then 92 ∷ 92 ∷ []
    else if x == 34
    then 92 ∷ 34 ∷ []
    else if x == 10
    then 92 ∷ 110 ∷ []
    else x ∷ []

escape_all : Text → Text
escape_all [] = []
escape_all (x ∷ s) = escape_unit x ++ escape_all s

pub replace_unit-append :
    (c : ℕ) (r s t : Text) → replace_unit c r (s ++ t) ≡ replace_unit c r s ++ replace_unit c r t
unfolding replace_unit
replace_unit-append c r [] t = refl
replace_unit-append c r (x ∷ s) t =
    ap (λ u. (if x == c then r else x ∷ []) ++ u) (replace_unit-append c r s t)
    ∙ sym (append_assoc (if x == c then r else x ∷ []) (replace_unit c r s) (replace_unit c r t))

abbrev three_passes : Text → Text
three_passes s =
    replace_unit 10 (92 ∷ 110 ∷ [])
      (replace_unit 34 (92 ∷ 34 ∷ []) (replace_unit 92 (92 ∷ 92 ∷ []) s))

one_unit : (x : ℕ) → three_passes (x ∷ []) ≡ escape_unit x
unfolding replace_unit
one_unit x = elim (Bool-cases (x == 92)) [
  | inl e ↦ rw e refl
  | inr e ↦ elim (Bool-cases (x == 34)) [
    | inl f ↦ rw (e, f) refl
    | inr f ↦ elim (Bool-cases (x == 10)) [ inl g ↦ rw (e, f, g) refl | inr g ↦ rw (e, f, g) refl ]
  ]
]

three_passes-append : (s t : Text) → three_passes (s ++ t) ≡ three_passes s ++ three_passes t
three_passes-append s t =
    rw
      (
        replace_unit-append 92 (92 ∷ 92 ∷ []) s t,
        replace_unit-append 34 (92 ∷ 34 ∷ []) (replace_unit 92 (92 ∷ 92 ∷ []) s)
            (replace_unit 92 (92 ∷ 92 ∷ []) t),
      )
      (replace_unit-append 10 (92 ∷ 110 ∷ []) _ _)

-- The three passes do not touch what an earlier one has put in.
three_passes-escape_all : (s : Text) → three_passes s ≡ escape_all s
unfolding escape_all
three_passes-escape_all [] = unfold replace_unit in refl
three_passes-escape_all (x ∷ s) =
    three_passes-append (x ∷ []) s
    ∙ ap (λ t. t ++ three_passes s) (one_unit x)
    ∙ ap (λ t. escape_unit x ++ t) (three_passes-escape_all s)

-- One escaped character is read as the character.
read_string-escape_unit :
    (x : ℕ) (s : Text) → read_string false (escape_unit x ++ s) ≡ cons_first x (read_string false s)
unfolding read_string
read_string-escape_unit x s = elim (Bool-cases (x == 92)) [
  | inl e ↦ let same : x ≡ 92 = (nat_beq_iff x 92).0 e in rw (e, same) refl
  | inr e ↦ elim (Bool-cases (x == 34)) [
    | inl f ↦ let same : x ≡ 34 = (nat_beq_iff x 34).0 f in rw (e, f, same) refl
    | inr f ↦ elim (Bool-cases (x == 10)) [
      | inl g ↦ let same : x ≡ 10 = (nat_beq_iff x 10).0 g in rw (e, f, g, same) refl
      | inr g ↦ rw (e, f, g, f, e, g) refl
    ]
  ]
]

read_string-escape_all :
    (s rest : Text) → read_string false (escape_all s ++ 34 ∷ rest) ≡ some (s, rest)
unfolding escape_all
read_string-escape_all [] rest = unfold read_string in refl
read_string-escape_all (x ∷ s) rest =
    ap (read_string false) (append_assoc (escape_unit x) (escape_all s) (34 ∷ rest))
    ∙ read_string-escape_unit x (escape_all s ++ 34 ∷ rest)
    ∙ ap (cons_first x) (read_string-escape_all s rest)

-- A quoted value is read as the value, whatever it holds and whatever follows.
pub read_quoted-prometheus_string :
    (value rest : Text) → read_quoted (prometheus_string value ++ rest) ≡ some (value, rest)
unfolding prometheus_string
read_quoted-prometheus_string value rest =
    ap (read_string false) (
      append_assoc (three_passes value) (34 ∷ []) rest
      ∙ ap (λ t. t ++ 34 ∷ rest) (three_passes-escape_all value))
    ∙ read_string-escape_all value rest

abbrev pub prefixed : ℕ → Option Text → Option Text
prefixed c none = none
prefixed c (some s) = some (c ∷ s)

-- The characters that RE2 gives a meaning of its own, by their code points: backslash, circumflex,
-- dollar, full stop, asterisk, plus, question mark, brackets, braces and bar.
abbrev metacharacters : List ℕ
metacharacters = 92 ∷ 94 ∷ 36 ∷ 46 ∷ 42 ∷ 43 ∷ 63 ∷ 40 ∷ 41 ∷ 91 ∷ 93 ∷ 123 ∷ 125 ∷ 124 ∷ []

unfoldable pub is_metacharacter : ℕ → Bool
unfolding any
is_metacharacter c = any (λ d. c == d) metacharacters

is_special-is_metacharacter : (c : ℕ) → is_special c ≡ is_metacharacter c
unfolding is_special is_metacharacter units any
is_special-is_metacharacter c = refl

backslash-is_metacharacter : is_metacharacter 92 ≡ true
unfolding is_metacharacter any
backslash-is_metacharacter = refl

-- A pattern that stands for one text, as RE2 reads it: a metacharacter has a backslash before it,
-- any other character stands for itself. The Boolean tells that a backslash came before.
unfoldable pub read_literal : Bool → Text → Option Text
unfolding is_metacharacter
read_literal true [] = none
read_literal false [] = some []
read_literal true (c ∷ s) =
    let rest = read_literal false s in if is_metacharacter c then prefixed c rest else none
read_literal false (c ∷ s) =
    let rest = read_literal false s in
    let after_backslash = read_literal true s in
    if c == 92 then after_backslash else if is_metacharacter c then none else prefixed c rest

-- An escaped name is a pattern for that name alone.
pub read_literal-escape_regex : (name : Text) → read_literal false (escape_regex name) ≡ some name
unfolding read_literal escape_regex
read_literal-escape_regex [] = refl
read_literal-escape_regex (c ∷ s) = elim (Bool-cases (is_metacharacter c)) [
  | inl e ↦
      let special = is_special-is_metacharacter c ∙ e in
      rw (special, e, read_literal-escape_regex s) refl
  | inr e ↦
      let special = is_special-is_metacharacter c ∙ e in
      elim (Bool-cases (c == 92)) [
        | inl f ↦
            let same : c ≡ 92 = (nat_beq_iff c 92).0 f in
            let plain : is_metacharacter 92 ≡ false = rw same at e in
            ground (arith, backslash-is_metacharacter)
        | inr f ↦ rw (special, e, f, read_literal-escape_regex s) refl
      ]
]
