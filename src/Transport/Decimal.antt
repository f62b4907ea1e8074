-- ===== src/Transport/Decimal.antt =====
-- internal/oci/transport.go: the digits of itoa.
use mathlib.Core.Path.{subst}
use native.Mathlib.Nat.{div-add-mod, pow-suc}
use ocifuse.Prelude.{
  ℕ, zero, suc, ◌+◌, ◌-◌, ◌*◌, ◌/◌, ◌%◌, ◌^◌, ◌<◌, ◌≡◌, refl, ap, ◌∙◌, [], ◌∷◌, Bytes, arith,
  Option, none, some, true, ◌&&◌, leb, nat_beq, if◌then◌else◌,
}
use ocifuse.Transport.{itoa_loop, itoa}

-- The number that decimal digits denote, behind a number that was read before them; none for any
-- other text.
abbrev pub read_digits : ℕ → Bytes → Option ℕ
read_digits n [] = some n
read_digits n (c ∷ s) =
    let rest = read_digits (10 * n + (c - b'0')) s in
    if leb b'0' c && leb c b'9' then rest else none

-- There is a digit, and it is no zero unless the number is 0.
abbrev pub Leads : ℕ → Bytes → Type 0
Leads n [] = ⊥
Leads n (c ∷ s) = nat_beq c b'0' ≡ nat_beq n 0

read_digits-itoa_loop :
    (fuel n : ℕ) (buf : Bytes)
    → n < 10 ^ fuel
    → read_digits 0 (itoa_loop fuel n buf) ≡ read_digits n buf
unfolding itoa_loop
read_digits-itoa_loop zero n buf h =
    let none_left : 0 ≡ n = omega (arith, h) in ap (λ n. read_digits n buf) none_left
read_digits-itoa_loop (suc fuel) zero buf h = refl
read_digits-itoa_loop (suc fuel) (suc n) buf h =
    let room : suc n < 10 ^ fuel * 10 = subst (λ k. suc n < k) (pow-suc 10 fuel) h in
    let parts : 10 * (suc n / 10) + suc n % 10 ≡ suc n = div-add-mod (suc n) 10 in
    let value : 10 * (suc n / 10) + (b'0' + suc n % 10 - b'0') ≡ suc n = omega (arith, parts) in
    let low : leb b'0' (b'0' + suc n % 10) ≡ true = ground arith in
    let high : leb (b'0' + suc n % 10) b'9' ≡ true = ground arith in
    read_digits-itoa_loop fuel (suc n / 10) ((b'0' + suc n % 10) ∷ buf) (omega (arith, room, parts))
    ∙ rw (low, high) (ap (λ n. read_digits n buf) value)

-- The digit of a number below 10 that is not 0 is none either.
Leads-itoa_loop :
    (fuel n m : ℕ) (buf : Bytes)
    → n < 10 ^ fuel
    → (n ≡ 0 → Leads (suc m) buf)
    → Leads (suc m) (itoa_loop fuel n buf)
unfolding itoa_loop
Leads-itoa_loop zero n m buf h l = l (omega (arith, h))
Leads-itoa_loop (suc fuel) zero m buf h l = l refl
Leads-itoa_loop (suc fuel) (suc n) m buf h l =
    let room : suc n < 10 ^ fuel * 10 = subst (λ k. suc n < k) (pow-suc 10 fuel) h in
    let parts : 10 * (suc n / 10) + suc n % 10 ≡ suc n = div-add-mod (suc n) 10 in
    Leads-itoa_loop fuel (suc n / 10) m ((b'0' + suc n % 10) ∷ buf) (omega (arith, room, parts))
      (λ e. ground (arith, parts, e))

-- Itoa of a number of at most 20 digits is a text of decimal digits alone that denotes the
-- number, and does not begin with a zero unless the number is 0.
pub read_digits-itoa : (n : ℕ) → n < 10 ^ 20 → (read_digits 0 (itoa n) ≡ some n) × Leads n (itoa n)
unfolding itoa
read_digits-itoa zero h = (refl, refl)
read_digits-itoa (suc n) h = (
  read_digits-itoa_loop 20 (suc n) [] h,
  Leads-itoa_loop 20 (suc n) n [] h (λ e. ground (arith, e)),
)
