-- ===== src/Base/Text.antt =====
-- What the code asks of Python's `str`: blankness (`not text.strip()`), and the pattern of
-- `OpaqueId` in backend/career_harness/core/common.py.
use Prim.Native.Nat.{ℕ}
use Prim.Native.Char.{code}
use Prim.Native.String.{String}
use mathlib.Core.Bool.{Bool, true, false, ◌&&◌, ◌||◌}
use mathlib.Core.List.{List, [], ◌∷◌}
use career_agent_harness.Base.Tests.{leb, ◌==◌}
use career_agent_harness.Base.Lists.{length, all}

-- The code points of a text.
abbrev pub codes : String → List ℕ
codes String.[] = []
codes (String.◌∷◌ c s) = code c ∷ codes s

abbrev pub between : ℕ → ℕ → ℕ → Bool
between lo hi c = leb lo c && leb c hi

abbrev pub codes_eq : List ℕ → List ℕ → Bool
codes_eq [] [] = true
codes_eq (a ∷ r) (b ∷ t) = a == b && codes_eq r t
codes_eq _ _ = false

-- `str.isspace` of one character: what `strip` takes off.
unfoldable pub is_space : ℕ → Bool
is_space c =
    between 9 13 c
    || between 28 32 c
    || c == 0x85
    || c == 0xa0
    || c == 0x1680
    || between 0x2000 0x200a c
    || between 0x2028 0x2029 c
    || c == 0x202f
    || c == 0x205f
    || c == 0x3000

-- `not text.strip()`
unfoldable pub is_blank : String → Bool
unfolding is_space
is_blank s = all is_space (codes s)

unfoldable pub is_lower : ℕ → Bool
is_lower c = between b'a' b'z' c

id_char : ℕ → Bool
unfolding is_lower
id_char c = is_lower c || between b'0' b'9' c || c == b'_' || c == b'-'

id_shape : List ℕ → Bool
unfolding is_lower id_char
id_shape [] = false
id_shape (c ∷ cs) = is_lower c && all id_char cs

-- `Field(min_length=lo, max_length=hi)`
unfoldable pub has_length : ℕ → ℕ → String → Bool
has_length lo hi s = between lo hi (length (codes s))

-- `^[a-z][a-z0-9_-]+$` of 3 to 128 characters
unfoldable pub is_opaque_id : String → Bool
unfolding id_shape has_length
is_opaque_id s = has_length 3 128 s && id_shape (codes s)
