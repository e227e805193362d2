-- ===== src/Getopt.antt =====
-- What the sources use of the C library's getopt, atoi and printf of numbers.
pub mod Decimal
use libtimeseries.Base.{
  ℕ, zero, suc, ◌+◌, ◌-◌, ◌*◌, ◌/◌, ◌%◌, ◌^◌, Bool, true, false, not, ◌&&◌, ◌||◌, Option, none,
  some, List, [], ◌∷◌, ◌++◌, Bytes, ltb, leb, ◌==◌, if◌then◌else◌, Outcome, done, fault, undefined,
}

-- A result of getopt, `:` for a missing argument and `?` for an unknown letter, with optarg.
abbrev pub Opt : Type 0
Opt = ℕ × Bytes

-- The option string: whether a letter that it has takes an argument.
abbrev pub OptString : Type 0
OptString = ℕ → Option Bool

-- The letters of a word behind its dash, and the letter whose argument is the next word.
unfoldable pub getopt_word : OptString → Bytes → List Opt × Option ℕ
getopt_word optstring [] = ([], none)
getopt_word optstring (c ∷ cs) =
    let rest = getopt_word optstring cs in
    elim (optstring c) [
      | none ↦ ((b'?', []) ∷ rest.0, rest.1)
      | some false ↦ ((c, []) ∷ rest.0, rest.1)
      | some true ↦ elim cs [ [] ↦ ([], some c) | x ∷ xs ↦ ((c, x ∷ xs) ∷ [], none) ]
    ]

abbrev pub is_option_word : Bytes → Bool
is_option_word [] = false
is_option_word (c ∷ []) = false
is_option_word (c ∷ d ∷ ds) = c == b'-'

abbrev pub is_dashes : Bytes → Bool
is_dashes [] = false
is_dashes (c ∷ []) = false
is_dashes (c ∷ d ∷ []) = c == b'-' && d == b'-'
is_dashes (c ∷ d ∷ e ∷ es) = false

-- The results of getopt over the words from `optind` on, where `pending` is the letter that waits
-- for its argument. Words that are no options are passed over.
unfoldable pub getopt : OptString → Option ℕ → List Bytes → List Opt
unfolding getopt_word
getopt optstring none [] = []
getopt optstring (some c) [] = (b':', []) ∷ []
getopt optstring (some c) (word ∷ words) = (c, word) ∷ getopt optstring none words
getopt optstring none (word ∷ words) =
    let skipped = getopt optstring none words in
    let found = getopt_word optstring (elim word [ [] ↦ [] | c ∷ cs ↦ cs ]) in
    let behind = getopt optstring found.1 words in
    if is_dashes word then [] else if is_option_word word then found.0 ++ behind else skipped

abbrev pub is_digit : ℕ → Bool
is_digit c = leb b'0' c && leb c b'9'

abbrev pub is_space : ℕ → Bool
is_space c = c == 32 || (leb 9 c && leb c 13)

-- The number that the digits at the start give, after `n`.
unfoldable pub digits_from : ℕ → Bytes → ℕ
digits_from n [] = n
digits_from n (c ∷ cs) = if is_digit c then digits_from (n * 10 + (c - b'0')) cs else n

-- atoi, as the 32 bits of an int; a number out of range is undefined.
unfoldable pub atoi : Bytes → Outcome ℕ
unfolding digits_from
atoi [] = done 0
atoi (c ∷ cs) =
    let rest = atoi cs in
    let n = digits_from 0 (c ∷ cs) in
    let m = digits_from 0 cs in
    if is_space c
    then rest
    else if c == b'-'
    then (if m == 0 then done 0 else if leb m (2 ^ 31) then done (2 ^ 32 - m) else fault undefined)
    else if c == b'+'
    then (if ltb m (2 ^ 31) then done m else fault undefined)
    else if ltb n (2 ^ 31)
    then done n
    else fault undefined

-- The decimal digits of a number that has at most `fuel` + 1 of them, in front of `behind`.
unfoldable pub decimal_onto : ℕ → ℕ → Bytes → Bytes
decimal_onto zero n behind = (b'0' + n % 10) ∷ behind
decimal_onto (suc fuel) n behind =
    let rest = decimal_onto fuel (n / 10) ((b'0' + n % 10) ∷ behind) in
    if ltb n 10 then (b'0' + n % 10) ∷ behind else rest

-- What printf writes for PRIu64 and PRIu32.
unfoldable pub decimal : ℕ → Bytes
unfolding decimal_onto
decimal n = decimal_onto 19 n []
