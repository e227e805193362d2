-- ===== src/Strtoull.antt =====
-- What the sources use of the C library's strtoull and strtoul to the base 10, of 64 bits both.
pub mod Decimal
use libtimeseries.Base.{
  ℕ, ◌-◌, ◌%◌, ◌^◌, Bool, true, false, ◌&&◌, Option, none, some, List, [], ◌∷◌, Bytes, leb, ltb,
  ◌==◌, if◌then◌else◌,
}
use libtimeseries.Getopt.{is_digit, is_space, digits_from}

-- A number that was read: the value that is returned, what `end` points to, and whether errno is set to
-- ERANGE.
pub record Number : Type 0 where
  pub value : ℕ
  pub rest : Bytes
  pub erange : Bool

-- What follows the digits.
unfoldable pub after_digits : Bytes → Bytes
after_digits [] = []
after_digits (c ∷ cs) = if is_digit c then after_digits cs else c ∷ cs

abbrev pub starts_digit : Bytes → Bool
starts_digit [] = false
starts_digit (c ∷ cs) = is_digit c

-- A number without its sign. A negative one is negated as a uint64_t.
abbrev pub signed : Bool → ℕ → Bytes → Number
signed negative n rest =
    if leb (2 ^ 64) n then record { value = 2 ^ 64 - 1; rest = rest; erange = true } else record {
      value = if negative then (2 ^ 64 - n) % 2 ^ 64 else n;
      rest = rest;
      erange = false;
    }

-- `none` where there are no digits, and `end` is the start of the text.
unfoldable pub magnitude : Bool → Bytes → Option Number
unfolding after_digits digits_from
magnitude negative s =
    if starts_digit s then some (signed negative (digits_from 0 s) (after_digits s)) else none

unfoldable pub strtoull : Bytes → Option Number
unfolding magnitude
strtoull [] = none
strtoull (c ∷ cs) =
    let rest = strtoull cs in
    if is_space c
    then rest
    else if c == b'-'
    then magnitude true cs
    else if c == b'+'
    then magnitude false cs
    else magnitude false (c ∷ cs)
