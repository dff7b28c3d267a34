-- ===== src/Base/Json.antt =====
-- JSON values, as the program's payloads hold them, and the number of bytes of
-- `json.dumps(value, ensure_ascii=False, separators=(",", ":")).encode("utf-8")`, on which the
-- order of the keys has no influence.
use Prim.Native.Nat.{ℕ, zero, suc, ◌+◌, ◌/◌}
use Prim.Native.String.{String}
use mathlib.Core.Bool.{Bool, true, false, ◌||◌}
use mathlib.Core.List.{List, [], ◌∷◌}
use career_agent_harness.Base.Tests.{ltb, ◌==◌, if◌then◌else◌}
use career_agent_harness.Base.Text.{codes, between}

-- `int negative magnitude`; a float is given by the text that `repr` prints.
mutual
  pub data Json : Type 0 where
    null : Json
    bool : Bool → Json
    int : Bool → ℕ → Json
    float : String → Json
    text : String → Json
    arr : Items → Json
    obj : Fields → Json

  pub data Items : Type 0 where
    nil : Items
    cons : Json → Items → Items

  pub data Fields : Type 0 where
    end : Fields
    field : String → Json → Fields → Fields

-- The decimal digits of a number; `n + 1` rounds are enough for `n`.
digit_count : ℕ → ℕ → ℕ
digit_count zero n = 1
digit_count (suc f) n = let rest = digit_count f (n / 10) in if ltb n 10 then 1 else rest + 1

-- The bytes of one character inside a JSON text: the escapes, and UTF-8 for the rest.
char_size : ℕ → ℕ
char_size c =
    if c == 34 || c == 92 || between 8 10 c || between 12 13 c
    then 2
    else if ltb c 32
    then 6
    else if ltb c 0x80
    then 1
    else if ltb c 0x800
    then 2
    else if ltb c 0x10000
    then 3
    else 4

chars_size : List ℕ → ℕ
chars_size [] = 0
chars_size (c ∷ cs) = char_size c + chars_size cs

text_size : String → ℕ
unfolding char_size chars_size
text_size s = chars_size (codes s) + 2

plain_size : List ℕ → ℕ
plain_size [] = 0
plain_size (c ∷ cs) = suc (plain_size cs)

unfoldable mutual
  unfolding digit_count text_size plain_size

  pub encoded_size : Json → ℕ
  encoded_size null = 4
  encoded_size (bool true) = 4
  encoded_size (bool false) = 5
  encoded_size (int negative n) = digit_count (suc n) n + (if negative then 1 else 0)
  encoded_size (float s) = plain_size (codes s)
  encoded_size (text s) = text_size s
  encoded_size (arr xs) = 1 + items_size xs
  encoded_size (obj fs) = 1 + fields_size fs

  -- Each entry is counted with the comma or the bracket behind it; the empty one with its bracket.
  pub items_size : Items → ℕ
  items_size nil = 1
  items_size (cons x nil) = encoded_size x + 1
  items_size (cons x xs) = encoded_size x + 1 + items_size xs

  pub fields_size : Fields → ℕ
  fields_size end = 1
  fields_size (field k x end) = text_size k + encoded_size x + 2
  fields_size (field k x fs) = text_size k + encoded_size x + 2 + fields_size fs
