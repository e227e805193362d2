-- ===== src/Platform.antt =====
-- What lib/timeseries_kp.c takes from outside the repository: the string map of khash.h (a git
-- submodule) and the memory allocator of the C library. Each answer is a function of the request.
use libtimeseries.Base.{ℕ, ◌≡◌, Bool, Option, none, some, Bytes, str_eq, if◌then◌else◌}

pub record Platform : Type 1 where
  -- khash_t(strint)
  pub Table : Type 0
  -- kh_init(strint); `none` is a NULL result
  pub kh_init : Option Table
  -- kh_get and kh_val; `none` is kh_end
  pub kh_get : Bytes → Table → Option ℕ
  -- kh_put and the write to kh_val; `none` is ret == -1
  pub kh_put : Bytes → ℕ → Table → Option Table
  -- malloc_zero of a key package
  pub malloc_zero : Bool
  -- realloc of the key array to this number of elements
  pub realloc : ℕ → Bool
  -- strdup of this string
  pub strdup : Bytes → Bool
  -- A new map is empty, and a put changes the value of its key alone.
  pub kh_get-kh_init : (t : Table) (k : Bytes) → kh_init ≡ some t → kh_get k t ≡ none
  pub kh_get-kh_put :
      (k j : Bytes) (v : ℕ) (t u : Table)
      → kh_put k v t ≡ some u
      → kh_get j u ≡ (if str_eq k j then some v else kh_get j t)
