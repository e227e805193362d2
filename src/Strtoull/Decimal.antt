-- ===== src/Strtoull/Decimal.antt =====
-- The decimal digits that printf writes of a number, as strtoull reads them.
use mathlib.Core.Path.{subst}
use libtimeseries.Base.{
  ◌-◌, ℕ, zero, suc, ◌+◌, ◌/◌, ◌%◌, ◌^◌, ◌<◌, ◌≤◌, ◌≡◌, refl, sym, ap, ◌∙◌, true, false, some, [],
  ◌∷◌, ◌++◌, Bytes, ltb, leb, ◌==◌, arith, Bool-cases, inl, inr,
}
use libtimeseries.Getopt.{is_digit, is_space, digits_from, decimal_onto, decimal}
use libtimeseries.Getopt.Decimal.{Ends, digits_from-decimal, decimal_onto-append}
use libtimeseries.Strtoull.{after_digits, starts_digit, magnitude, strtoull}

after_digits-decimal_onto :
    (fuel n : ℕ) (behind : Bytes) → after_digits (decimal_onto fuel n behind) ≡ after_digits behind
unfolding decimal_onto after_digits
after_digits-decimal_onto zero n behind =
    let digit : is_digit (b'0' + n % 10) ≡ true = ground arith in rw digit refl
after_digits-decimal_onto (suc fuel) n behind =
    let digit : is_digit (b'0' + n % 10) ≡ true = ground arith in
    elim (Bool-cases (ltb n 10)) [
      | inl small ↦ rw (small, digit) refl
      | inr large ↦
          rw large
            (after_digits-decimal_onto fuel (n / 10) ((b'0' + n % 10) ∷ behind) ∙ rw digit refl)
    ]

after_digits-Ends : (behind : Bytes) → Ends behind → after_digits behind ≡ behind
unfolding after_digits
after_digits-Ends [] e = refl
after_digits-Ends (c ∷ cs) e = rw e refl

-- A number starts with a digit.
decimal_onto-cons :
    (fuel n : ℕ) (behind : Bytes)
    → (c : ℕ) × (cs : Bytes) × (decimal_onto fuel n behind ≡ c ∷ cs) × (is_digit c ≡ true)
unfolding decimal_onto
decimal_onto-cons zero n behind = (b'0' + n % 10, behind, refl, ground arith)
decimal_onto-cons (suc fuel) n behind = elim (Bool-cases (ltb n 10)) [
  | inl small ↦ (b'0' + n % 10, behind, rw small refl, ground arith)
  | inr large ↦
      let (c, cs, e, digit) = decimal_onto-cons fuel (n / 10) ((b'0' + n % 10) ∷ behind) in
      (c, cs, rw large e, digit)
]

strtoull-digit :
    (c : ℕ) (cs : Bytes) → is_digit c ≡ true → strtoull (c ∷ cs) ≡ magnitude false (c ∷ cs)
unfolding strtoull
strtoull-digit c cs digit =
    let no_space : is_space c ≡ false = ground arith in
    let no_minus : (c == b'-') ≡ false = ground arith in
    let no_plus : (c == b'+') ≡ false = ground arith in rw no_space (rw no_minus (rw no_plus refl))

magnitude_small :
    (s : Bytes) (n : ℕ) (behind : Bytes)
    → starts_digit s ≡ true
    → digits_from 0 s ≡ n
    → after_digits s ≡ behind
    → n < 2 ^ 64
    → magnitude false s ≡ some (record { value = n; rest = behind; erange = false })
unfolding magnitude
magnitude_small s n behind digit value rest h =
    let small : leb (2 ^ 64) n ≡ false = ground arith in
    rw digit (rw value (rw rest (rw small refl)))

-- The text of a number, with what is not a digit behind it.
IsNumber : ℕ → Bytes → Bytes → Type 0
IsNumber n behind text =
    (strtoull text ≡ magnitude false text)
    × (starts_digit text ≡ true)
    × (digits_from 0 text ≡ n)
    × (after_digits text ≡ behind)

decimal-IsNumber :
    (n : ℕ) (behind : Bytes) → n < 10 ^ 20 → Ends behind → IsNumber n behind (decimal n ++ behind)
unfolding IsNumber
decimal-IsNumber n behind h e =
    let (c, cs, at, digit) = decimal_onto-cons 19 n behind in
    let text : decimal n ++ behind ≡ c ∷ cs =
      unfold decimal in decimal_onto-append 19 n [] behind ∙ at in
    subst (IsNumber n behind) (sym text) (
      strtoull-digit c cs digit,
      digit,
      ap (digits_from 0) (sym text) ∙ digits_from-decimal n behind h e,
      ap after_digits (sym at) ∙ after_digits-decimal_onto 19 n behind ∙ after_digits-Ends behind e,
    )

-- With no digit behind it, a number of 64 bits reads back as itself.
pub strtoull-decimal :
    (n : ℕ) (behind : Bytes)
    → n < 2 ^ 64
    → Ends behind
    → strtoull (decimal n ++ behind) ≡ some (record { value = n; rest = behind; erange = false })
unfolding IsNumber
strtoull-decimal n behind h e =
    let (read, digit, value, rest) = decimal-IsNumber n behind (omega arith) e in
    read ∙ magnitude_small (decimal n ++ behind) n behind digit value rest h

magnitude_large :
    (s : Bytes) (n : ℕ) (behind : Bytes)
    → starts_digit s ≡ true
    → digits_from 0 s ≡ n
    → after_digits s ≡ behind
    → 2 ^ 64 ≤ n
    → magnitude false s ≡ some (record { value = 2 ^ 64 - 1; rest = behind; erange = true })
unfolding magnitude
magnitude_large s n behind digit value rest h =
    let large : leb (2 ^ 64) n ≡ true = ground arith in
    rw digit (rw value (rw rest (rw large refl)))

-- A number that has no 64 bits sets errno.
pub strtoull-decimal_large :
    (n : ℕ) (behind : Bytes)
    → 2 ^ 64 ≤ n
    → n < 10 ^ 20
    → Ends behind
    → strtoull (decimal n ++ behind)
      ≡ some (record { value = 2 ^ 64 - 1; rest = behind; erange = true })
unfolding IsNumber
strtoull-decimal_large n behind h small e =
    let (read, digit, value, rest) = decimal-IsNumber n behind small e in
    read ∙ magnitude_large (decimal n ++ behind) n behind digit value rest h
