-- ===== src/Getopt/Decimal.antt =====
-- The digits that printf writes of a number, and the number that they read back as.
use libtimeseries.Base.{
  ℕ, zero, suc, ◌+◌, ◌-◌, ◌*◌, ◌/◌, ◌%◌, ◌^◌, ◌≤◌, ◌<◌, ◌≡◌, refl, ap, ◌∙◌, true, false, [], ◌∷◌,
  ◌++◌, Bytes, length, ltb, arith, Bool-cases, inl, inr,
}
use libtimeseries.Getopt.{is_digit, digits_from, decimal_onto, decimal}

digits_from-digit :
    (m d : ℕ) (behind : Bytes)
    → d < 10
    → digits_from m ((b'0' + d) ∷ behind) ≡ digits_from (m * 10 + d) behind
unfolding digits_from
digits_from-digit m d behind h =
    let digit : is_digit (b'0' + d) ≡ true = ground arith in
    let back : b'0' + d - b'0' ≡ d = omega arith in rw (digit, back) refl

-- Reading the digits of `n` goes on with what stands behind them.
digits_from-decimal_onto :
    (fuel n : ℕ) (behind : Bytes)
    → n < 10 ^ suc fuel
    → digits_from 0 (decimal_onto fuel n behind) ≡ digits_from n behind
unfolding decimal_onto
digits_from-decimal_onto zero n behind h =
    let small : 0 * 10 + n % 10 ≡ n = omega arith in
    digits_from-digit 0 (n % 10) behind (omega arith) ∙ ap (λ m. digits_from m behind) small
digits_from-decimal_onto (suc fuel) n behind h = elim (Bool-cases (ltb n 10)) [
  | inl small ↦
      let same : 0 * 10 + n % 10 ≡ n = ground arith in
      rw small
        (digits_from-digit 0 (n % 10) behind (omega arith) ∙ ap (λ m. digits_from m behind) same)
  | inr large ↦
      let whole : n / 10 * 10 + n % 10 ≡ n = omega arith in
      rw large (
        digits_from-decimal_onto fuel (n / 10) ((b'0' + n % 10) ∷ behind) (omega arith)
        ∙ digits_from-digit (n / 10) (n % 10) behind (omega arith)
        ∙ ap (λ m. digits_from m behind) whole)
]

-- The first character of `behind` is no digit.
abbrev pub Ends : Bytes → Type 0
Ends [] = Unit
Ends (c ∷ cs) = is_digit c ≡ false

digits_from-Ends : (n : ℕ) (behind : Bytes) → Ends behind → digits_from n behind ≡ n
unfolding digits_from
digits_from-Ends n [] e = refl
digits_from-Ends n (c ∷ cs) e = rw e refl

pub decimal_onto-append :
    (fuel n : ℕ) (a b : Bytes) → decimal_onto fuel n a ++ b ≡ decimal_onto fuel n (a ++ b)
unfolding decimal_onto
decimal_onto-append zero n a b = refl
decimal_onto-append (suc fuel) n a b = elim (Bool-cases (ltb n 10)) [
  | inl small ↦ rw small refl
  | inr large ↦ rw large (decimal_onto-append fuel (n / 10) ((b'0' + n % 10) ∷ a) b)
]

-- The number of digits.
length-decimal_onto :
    (fuel n k : ℕ) (behind : Bytes)
    → k ≤ fuel
    → n < 10 ^ suc k
    → length (decimal_onto fuel n behind) ≤ suc k + length behind
unfolding decimal_onto
length-decimal_onto zero n k behind hk h = omega arith
length-decimal_onto (suc fuel) n zero behind hk h =
    let small : ltb n 10 ≡ true = ground arith in rw small (omega arith)
length-decimal_onto (suc fuel) n (suc k) behind hk h =
    let fewer =
      length-decimal_onto fuel (n / 10) k ((b'0' + n % 10) ∷ behind) (omega arith) (omega arith) in
    elim (Bool-cases (ltb n 10)) [
      | inl small ↦ rw small (omega arith)
      | inr large ↦ rw large (omega (arith, fewer))
    ]

pub length-decimal32 : (n : ℕ) → n < 2 ^ 32 → length (decimal n) ≤ 10
unfolding decimal
length-decimal32 n h = length-decimal_onto 19 n 9 [] (omega arith) (omega arith)

pub digits_from-decimal :
    (n : ℕ) (behind : Bytes) → n < 10 ^ 20 → Ends behind → digits_from 0 (decimal n ++ behind) ≡ n
unfolding decimal
digits_from-decimal n behind h e =
    ap (digits_from 0) (decimal_onto-append 19 n [] behind)
    ∙ digits_from-decimal_onto 19 n behind h
    ∙ digits_from-Ends n behind e
