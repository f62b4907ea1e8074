-- ===== src/CommandLine/Sizes.antt =====
-- cmd/ocifuse/main.go: a size that is written as a number and a unit.
use mathlib.Core.Path.{subst}
use ocifuse.Prelude.{
  sym, Option-cases, inl, inr, Bool-cases, Option, none, some, ◌^◌, ◌&&◌, ◌||◌, nat_beq, bytes_beq,
  Bool, if◌then◌else◌, arith, nat_eq, ℕ, suc, ℤ, true, false, [], ◌∷◌, ◌++◌, Bytes, codes, bytes_eq,
  ◌==◌, length, take, drop, Result, ok, err, ◌≡◌, refl, ap, ◌∙◌, All, take-length,
  drop-append_length,
}
use ocifuse.Strings.{index_byte}
use ocifuse.CommandLine.{
  unit_of, SizeError, unknown_suffix, trim_space, to_upper, is_digit, digits_end, not_a_number,
  scaled, measured, parse_bytes,
}

-- No digit comes next.
abbrev pub Ends : Bytes → Type 0
Ends [] = Unit
Ends (c ∷ s) = is_digit c ≡ false

digits_end-append :
    (num suffix : Bytes)
    → All (λ c. is_digit c ≡ true) num
    → Ends suffix
    → digits_end (num ++ suffix) ≡ length num
unfolding digits_end
digits_end-append [] [] a e = refl
digits_end-append [] (c ∷ s) a e = rw e refl
digits_end-append (c ∷ num) suffix a e = rw (a.0, digits_end-append num suffix a.1 e) refl

-- What may follow the letter of a unit.
abbrev pub is_tail : Bytes → Bool
is_tail t = t == [] || t == codes "B" || t == codes "IB"

-- The power of 1024 that a unit in upper case names: the letter's place in "KMGT".
abbrev pub exponent : Bytes → Option ℕ
exponent [] = some 0
exponent (c ∷ t) =
    if nat_beq c b'B' && t == []
    then some 0
    else if is_tail t
    then elim (index_byte (codes "KMGT") c) [ none ↦ none | some k ↦ some (suc k) ]
    else none

abbrev pub power_of : Option ℕ → Option ℕ
power_of none = none
power_of (some k) = some (1024 ^ k)

abbrev Agrees : Bytes → ℕ → Type 0
Agrees t c = unit_of (c ∷ t) ≡ power_of (exponent (c ∷ t))

Agrees-same : (t : Bytes) (l c : ℕ) → nat_beq c l ≡ true → Agrees t l → Agrees t c
Agrees-same t l c e a = let same : c ≡ l = ground (arith, e) in subst (Agrees t) (sym same) a

-- No letter of a unit but 'B'.
Agrees-other :
    (t : Bytes) (c : ℕ)
    → nat_beq c b'K' ≡ false
    → nat_beq c b'M' ≡ false
    → nat_beq c b'G' ≡ false
    → nat_beq c b'T' ≡ false
    → Agrees t c
unfolding unit_of index_byte bytes_beq
Agrees-other t c k m g h = ground (arith, k, m, g, h)

-- The table of units, against the powers.
unit_of_lem : (s : Bytes) → unit_of s ≡ power_of (exponent s)
unfolding unit_of index_byte bytes_beq
unit_of_lem [] = refl
unit_of_lem (c ∷ t) = elim (Bool-cases (nat_beq c b'K')) [
  | inl e ↦ Agrees-same t b'K' c e (ground arith)
  | inr k ↦ elim (Bool-cases (nat_beq c b'M')) [
    | inl e ↦ Agrees-same t b'M' c e (ground arith)
    | inr m ↦ elim (Bool-cases (nat_beq c b'G')) [
      | inl e ↦ Agrees-same t b'G' c e (ground arith)
      | inr g ↦ elim (Bool-cases (nat_beq c b'T')) [
        | inl e ↦ Agrees-same t b'T' c e (ground arith)
        | inr h ↦ Agrees-other t c k m g h
      ]
    ]
  ]
]

-- The size of `n` units.
abbrev pub sized : {F E : Type 0} → (F → ℕ → ℤ) → F → Bytes → Option ℕ → Result (SizeError E) ℤ
sized times n suffix none = err (unknown_suffix suffix)
sized times n suffix (some k) = ok (times n (1024 ^ k))

scaled_lem :
    {F E : Type 0} (parse_float : Bytes → Result E F) (times : F → ℕ → ℤ) (n : F) (suffix : Bytes)
    → scaled parse_float times n suffix ≡ sized times n suffix (exponent suffix)
scaled_lem parse_float times n suffix = elim (Option-cases (exponent suffix)) [
  | inl e ↦
      let none_there : unit_of suffix ≡ none = unit_of_lem suffix ∙ ap power_of e in
      rw (none_there, e, scaled, sized) refl
  | inr (k, e) ↦
      let there : unit_of suffix ≡ some (1024 ^ k) = unit_of_lem suffix ∙ ap power_of e in
      rw (there, e, scaled, sized) refl
]

measured_lem :
    {F E : Type 0} (parse_float : Bytes → Result E F) (times : F → ℕ → ℤ) (r : Result E F)
    (unit : Bytes)
    → (elim r as (λ x. Result (SizeError E) ℤ) [
      | err e ↦ err (not_a_number e)
      | ok n ↦ scaled parse_float times n unit
    ])
      ≡ (elim r as (λ x. Result (SizeError E) ℤ) [
        | err e ↦ err (not_a_number e)
        | ok n ↦ sized times n unit (exponent unit)
      ])
measured_lem parse_float times (err e) unit = refl
measured_lem parse_float times (ok n) unit = scaled_lem parse_float times n unit

-- A text that is, but for spaces around it, a number that is not "0" and a rest that does not
-- begin with a digit is the number times a power of 1024, if the rest, without spaces and in
-- upper case, is a unit: nothing or "B" for the power 0, or else a letter, whose place in
-- "KMGT" counted from 1 is the power, with nothing, "B" or "IB" behind it. A bad number or any
-- other unit is the error.
pub parse_bytes_lem :
    {F E : Type 0} (parse_float : Bytes → Result E F) (times : F → ℕ → ℤ) (text num suffix : Bytes)
    (c : ℕ)
    → trim_space text ≡ (c ∷ num) ++ suffix
    → ((c ∷ num) ++ suffix == codes "0") ≡ false
    → All (λ c. is_digit c ≡ true) (c ∷ num)
    → Ends suffix
    → let unit = to_upper (trim_space suffix) in
      parse_bytes parse_float times text ≡ elim (parse_float (c ∷ num)) [
        | err e ↦ err (not_a_number e)
        | ok n ↦ sized times n unit (exponent unit)
      ]
unfolding parse_bytes
parse_bytes_lem {E = E} parse_float times text num suffix c t other a e =
    let s = (c ∷ num) ++ suffix in
    let at : digits_end s ≡ suc (length num) = digits_end-append (c ∷ num) suffix a e in
    let front : take (suc (length num)) s ≡ c ∷ num = take-length (c ∷ num) suffix in
    let back : drop (suc (length num)) s ≡ suffix = drop-append_length (c ∷ num) suffix in
    rw (t, other, at, parse_bytes)
      (ap (λ d. measured parse_float times d (drop (suc (length num)) s)) front
        ∙ ap (measured parse_float times (c ∷ num)) back
        ∙ measured_lem parse_float times (parse_float (c ∷ num)) (to_upper (trim_space suffix)))
