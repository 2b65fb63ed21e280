-- ===== src/ApiKey/Format.antt =====
-- The text of a key: a prefix, sixteen digits that identify it and sixteen that are secret.
use kudeploy.Prelude.{
  suc, non_empty, ℕ, ◌+◌, ◌-◌, ◌≡◌, refl, sym, ap, ◌∙◌, Bool, true, ◌&&◌, ◌||◌, Option, none, some,
  [], ◌∷◌, ◌++◌, Text, leb, ◌==◌, nat_eq, length, take, drop, all, if◌then◌else◌, arith,
  length-append, drop-append, and-eq-true, nat_beq_iff,
}

pub record ParsedApiKey : Type 0 where
  pub key_id : Text
  pub secret : Text

-- `[0-9a-f]`
abbrev pub is_hex_digit : ℕ → Bool
is_hex_digit c = leb 48 c && leb c 57 || leb 97 c && leb c 102

-- `/^[0-9a-f]{n}$/`
unfoldable pub is_hex : ℕ → Text → Bool
unfolding all
is_hex n s = length s == n && all is_hex_digit s

unfoldable pub assemble_api_key : Text → Text → Text → Text
assemble_api_key prefix key_id secret = prefix ++ (key_id ++ secret)

-- `apiKey.slice(-32)`
abbrev pub last_units : ℕ → Text → Text
last_units n s = drop (length s - n) s

unfoldable pub parse_api_key : Text → Option ParsedApiKey
unfolding is_hex take drop
parse_api_key api_key =
    let suffix = last_units 32 api_key in
    if is_hex 32 suffix
    then some (record { key_id = take 16 suffix; secret = drop 16 suffix })
    else none

all-append : (p : ℕ → Bool) (s t : Text) → all p (s ++ t) ≡ (all p s && all p t)
unfolding all
all-append p [] t = refl
all-append p (c ∷ s) t = ground (arith, all-append p s t)

take-append : (s t : Text) → take (length s) (s ++ t) ≡ s
unfolding take
take-append [] t = refl
take-append (c ∷ s) t = ap (◌∷◌ c) (take-append s t)

parse_of_suffix :
    (s suffix : Text)
    → last_units 32 s ≡ suffix
    → is_hex 32 suffix ≡ true
    → parse_api_key s ≡ some (record { key_id = take 16 suffix; secret = drop 16 suffix })
unfolding parse_api_key
parse_of_suffix s suffix e h = rw (e, h) refl

length_of_hex : (n : ℕ) (s : Text) → is_hex n s ≡ true → length s ≡ n
unfolding is_hex
length_of_hex n s h = (nat_beq_iff (length s) n).0 (and-eq-true _ _ h).0

is_hex-append :
    (n k : ℕ) (s t : Text) → is_hex n s ≡ true → is_hex k t ≡ true → is_hex (n + k) (s ++ t) ≡ true
unfolding is_hex
is_hex-append n k s t h g =
    let long : (length (s ++ t) == n + k) ≡ true =
      (nat_beq_iff (length (s ++ t)) (n + k)).1
        (omega (arith, length-append s t, length_of_hex n s h, length_of_hex k t g)) in
    let first : all is_hex_digit s ≡ true = (and-eq-true _ _ h).1 in
    let second : all is_hex_digit t ≡ true = (and-eq-true _ _ g).1 in
    let digits : all is_hex_digit (s ++ t) ≡ true =
      all-append is_hex_digit s t ∙ rw (first, second) refl in
    rw (long, digits) refl

last_units-append : (prefix s : Text) (n : ℕ) → length s ≡ n → last_units n (prefix ++ s) ≡ s
last_units-append prefix s n e =
    ap (λ k. drop k (prefix ++ s)) (omega (arith, length-append prefix s)) ∙ drop-append prefix s

-- A key that was assembled is taken apart again, whatever its prefix is.
pub parse_api_key-assemble_api_key :
    (prefix key_id secret : Text)
    → is_hex 16 key_id ≡ true
    → is_hex 16 secret ≡ true
    → parse_api_key (assemble_api_key prefix key_id secret)
      ≡ some (record { key_id = key_id; secret = secret })
unfolding assemble_api_key
parse_api_key-assemble_api_key prefix key_id secret h k =
    let rest = key_id ++ secret in
    let hex : is_hex 32 rest ≡ true = is_hex-append 16 16 key_id secret h k in
    let sixteen = length_of_hex 16 key_id h in
    let first : take 16 rest ≡ key_id =
      ap (λ n. take n rest) (sym sixteen) ∙ take-append key_id secret in
    let second : drop 16 rest ≡ secret =
      ap (λ n. drop n rest) (sym sixteen) ∙ drop-append key_id secret in
    parse_of_suffix (prefix ++ rest) rest
      (last_units-append prefix rest 32 (length_of_hex 32 rest hex)) hex
    ∙ rw (first, second) refl

non_empty_of_hex : (n : ℕ) (s : Text) → is_hex (suc n) s ≡ true → non_empty s ≡ true
unfolding is_hex non_empty
non_empty_of_hex n [] h = ground arith
non_empty_of_hex n (c ∷ s) h = refl

non_empty_of_parts :
    (prefix s t : Text) → non_empty s ≡ true → non_empty (prefix ++ (s ++ t)) ≡ true
unfolding non_empty
non_empty_of_parts [] (c ∷ s) t h = refl
non_empty_of_parts [] [] t h = ground arith
non_empty_of_parts (d ∷ prefix) s t h = refl

pub non_empty-assemble_api_key :
    (prefix key_id secret : Text)
    → is_hex 16 key_id ≡ true
    → non_empty (assemble_api_key prefix key_id secret) ≡ true
unfolding assemble_api_key
non_empty-assemble_api_key prefix key_id secret h =
    non_empty_of_parts prefix key_id secret (non_empty_of_hex 15 key_id h)
