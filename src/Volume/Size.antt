-- ===== src/Volume/Size.antt =====
-- `toVolumeSize` and the storage request of `buildVolumeResource`: the size of a volume as text.
use mathlib.Core.List.{reverse-append, reverse-reverse}
use kudeploy.Prelude.{
  ℕ, zero, suc, ◌+◌, ◌-◌, ◌*◌, ◌/◌, ◌%◌, ◌<◌, ◌≡◌, refl, ap, sym, ◌∙◌, Bool, true, false, ◌&&◌,
  Option, none, some, [], ◌∷◌, ◌++◌, Text, units, ◌==◌, nat_eq, list_eq, list_beq, ltb, leb, arith,
  trim, is_space, drop_spaces, non_empty, or_else, if◌then◌else◌, Bool-cases, inl, inr, reverse,
}
use kudeploy.Prelude.Int.{decimal, digits_from}

abbrev pub is_digit : ℕ → Bool
is_digit c = leb 48 c && leb c 57

-- What `/^(\d+)Gi$/` captures, as a number.
unfoldable pub size_from : ℕ → Bool → Text → Option ℕ
unfolding units list_beq
size_from n seen [] = none
size_from n seen (c ∷ s) =
    let rest = size_from (n * 10 + (c - 48)) true s in
    if is_digit c then rest else if seen && (c ∷ s) == units "Gi" then some n else none

unfoldable pub to_volume_size : Option Text → ℕ
unfolding size_from non_empty trim
to_volume_size none = 0
to_volume_size (some value) =
    if non_empty value then or_else (size_from 0 false (trim value)) 0 else 0

unfoldable pub storage_of : ℕ → Text
unfolding decimal units
storage_of size = decimal size ++ units "Gi"

digits_from-append :
    (fuel n : ℕ) (acc s : Text) → digits_from fuel n acc ++ s ≡ digits_from fuel n (acc ++ s)
unfolding digits_from
digits_from-append zero n acc s = refl
digits_from-append (suc fuel) n acc s = elim (Bool-cases (ltb n 10)) [
  | inl e ↦ rw e refl
  | inr e ↦ rw e (digits_from-append fuel (n / 10) _ s)
]

-- A digit is read, and is no space.
size_from-digit :
    (n d : ℕ) (seen : Bool) (acc : Text)
    → d < 10
    → size_from n seen ((48 + d) ∷ acc) ≡ size_from (n * 10 + d) true acc
unfolding size_from
size_from-digit n d seen acc h =
    let digit : is_digit (48 + d) ≡ true = ground arith in
    let value : n * 10 + ((48 + d) - 48) ≡ n * 10 + d = omega arith in rw (digit, value) refl

digit_no_space : (d : ℕ) → d < 10 → is_space (48 + d) ≡ false
unfolding is_space
digit_no_space d h = ground arith

-- Reading the digits of a number back gives the number.
size_from-digits_from :
    (fuel n : ℕ) (seen : Bool) (acc : Text)
    → n < fuel
    → size_from 0 seen (digits_from fuel n acc) ≡ size_from n true acc
unfolding digits_from
size_from-digits_from zero n seen acc h = ground arith
size_from-digits_from (suc fuel) n seen acc h = elim (Bool-cases (ltb n 10)) [
  | inl e ↦
      let value : 0 * 10 + n ≡ n = omega arith in
      rw e (size_from-digit 0 n seen acc (ground arith) ∙ ap (λ k. size_from k true acc) value)
  | inr e ↦
      let value : n / 10 * 10 + n % 10 ≡ n = omega arith in
      rw e (
        size_from-digits_from fuel (n / 10) seen ((48 + n % 10) ∷ acc) (ground arith)
        ∙ size_from-digit (n / 10) (n % 10) true acc (omega arith)
        ∙ ap (λ k. size_from k true acc) value)
]

drop_spaces-digits_from :
    (fuel n : ℕ) (acc : Text)
    → n < fuel
    → drop_spaces (digits_from fuel n acc) ≡ digits_from fuel n acc
unfolding digits_from drop_spaces
drop_spaces-digits_from zero n acc h = ground arith
drop_spaces-digits_from (suc fuel) n acc h = elim (Bool-cases (ltb n 10)) [
  | inl e ↦ rw (e, digit_no_space n (ground arith)) refl
  | inr e ↦ rw e (drop_spaces-digits_from fuel (n / 10) ((48 + n % 10) ∷ acc) (ground arith))
]

storage_of-digits_from : (n : ℕ) → storage_of n ≡ digits_from (suc n) n (units "Gi")
unfolding storage_of decimal
storage_of-digits_from n = digits_from-append (suc n) n [] (units "Gi")

trim_of_ends : (s r : Text) → drop_spaces s ≡ s → reverse s ≡ 105 ∷ r → trim s ≡ s
unfolding trim drop_spaces is_space
trim_of_ends s r first last = rw (first, last) (ap reverse (sym last) ∙ reverse-reverse s)

trim-storage_of : (n : ℕ) → trim (storage_of n) ≡ storage_of n
trim-storage_of n =
    let same = storage_of-digits_from n in
    trim_of_ends (storage_of n) (71 ∷ reverse (decimal n))
      (ap drop_spaces same
        ∙ drop_spaces-digits_from (suc n) n (units "Gi") (omega arith)
        ∙ sym same)
      (unfold storage_of in unfold units in reverse-append (decimal n) (71 ∷ 105 ∷ []))

non_empty-append : (s t : Text) → non_empty t ≡ true → non_empty (s ++ t) ≡ true
unfolding non_empty
non_empty-append [] t h = h
non_empty-append (c ∷ s) t h = refl

non_empty-storage_of : (n : ℕ) → non_empty (storage_of n) ≡ true
unfolding storage_of units
non_empty-storage_of n = non_empty-append (decimal n) (units "Gi") (unfold non_empty in refl)

-- The size that a volume is asked for is the size that is read from its storage request.
pub to_volume_size-storage_of : (n : ℕ) → to_volume_size (some (storage_of n)) ≡ n
unfolding to_volume_size
to_volume_size-storage_of n =
    let read : size_from 0 false (storage_of n) ≡ some n =
      ap (size_from 0 false) (storage_of-digits_from n)
      ∙ size_from-digits_from (suc n) n false (units "Gi") (omega arith)
      ∙ (unfold size_from in unfold units in refl) in
    rw (non_empty-storage_of n, trim-storage_of n, read) refl
