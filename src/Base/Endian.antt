-- ===== src/Base/Endian.antt =====
-- Integers of 16, 32 and 64 bits in network byte order: `htons`, `htonl` or `htonll` followed by a
-- copy into a byte buffer, and the way back.
use Prim.Native.Nat.{ℕ, ◌+◌, ◌*◌, ◌/◌, ◌%◌, ◌^◌, ◌<◌}
use mathlib.Core.Path.{◌≡◌, refl}
use mathlib.Core.List.{[], ◌∷◌, ◌++◌}
use native.Mathlib.Omega.{arith}
use libtimeseries.Base.Text.{Bytes}
use libtimeseries.Base.Lists.{length}

-- A value is cut to its width.
unfoldable pub be16 : ℕ → Bytes
be16 n = (n / 256 % 256) ∷ (n % 256) ∷ []

unfoldable pub be32 : ℕ → Bytes
unfolding be16
be32 n = be16 (n / 65536 % 65536) ++ be16 (n % 65536)

unfoldable pub be64 : ℕ → Bytes
unfolding be32
be64 n = be32 (n / 2 ^ 32 % 2 ^ 32) ++ be32 (n % 2 ^ 32)

abbrev pub of_be16 : ℕ → ℕ → ℕ
of_be16 a b = a * 256 + b

abbrev pub of_be32 : ℕ → ℕ → ℕ → ℕ → ℕ
of_be32 a b c d = of_be16 a b * 65536 + of_be16 c d

abbrev pub of_be64 : ℕ → ℕ → ℕ → ℕ → ℕ → ℕ → ℕ → ℕ → ℕ
of_be64 a b c d e f g h = of_be32 a b c d * 2 ^ 32 + of_be32 e f g h

pub length-be16 : (n : ℕ) → length (be16 n) ≡ 2
unfolding be16
length-be16 n = refl

pub length-be32 : (n : ℕ) → length (be32 n) ≡ 4
unfolding be32
length-be32 n = refl

pub length-be64 : (n : ℕ) → length (be64 n) ≡ 8
unfolding be64
length-be64 n = refl

pub of_be16-be16 : (n : ℕ) → n < 65536 → of_be16 (n / 256 % 256) (n % 256) ≡ n
of_be16-be16 n h = omega arith

pub of_be32-be32 :
    (n : ℕ)
    → n < 2 ^ 32
    → of_be32
        (n / 65536 % 65536 / 256 % 256)
        (n / 65536 % 65536 % 256)
        (n % 65536 / 256 % 256)
        (n % 65536 % 256)
      ≡ n
of_be32-be32 n h = omega arith

pub of_be64-be64 :
    (n : ℕ)
    → n < 2 ^ 64
    → of_be64
        (n / 2 ^ 32 % 2 ^ 32 / 65536 % 65536 / 256 % 256)
        (n / 2 ^ 32 % 2 ^ 32 / 65536 % 65536 % 256)
        (n / 2 ^ 32 % 2 ^ 32 % 65536 / 256 % 256)
        (n / 2 ^ 32 % 2 ^ 32 % 65536 % 256)
        (n % 2 ^ 32 / 65536 % 65536 / 256 % 256)
        (n % 2 ^ 32 / 65536 % 65536 % 256)
        (n % 2 ^ 32 % 65536 / 256 % 256)
        (n % 2 ^ 32 % 65536 % 256)
      ≡ n
of_be64-be64 n h = omega (
  arith,
  of_be32-be32 (n / 2 ^ 32 % 2 ^ 32) (omega arith),
  of_be32-be32 (n % 2 ^ 32) (omega arith),
)
