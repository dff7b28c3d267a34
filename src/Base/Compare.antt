-- ===== src/Base/Compare.antt =====
-- Three-way comparisons, as the keys of `sorted` give them: numbers, texts by their code points, and
-- tuples, which compare by their first difference.
use Prim.Native.Nat.{ℕ, compare, Ordering}
use Prim.Native.Nat.Ordering.{lt, eq, gt}
use Prim.Native.Char.{code}
use Prim.Native.String.{String}
use text.Mathlib.TextEquality.{codes_equal}
use mathlib.Core.Path.{◌≡◌, refl}
use mathlib.Core.Bool.{Bool, true, false}
use mathlib.Core.List.{List, [], ◌∷◌}
use native.Mathlib.Omega.{arith}
use career_agent_harness.Base.Text.{codes}

abbrev pub flip : Ordering → Ordering
flip lt = gt
flip eq = eq
flip gt = lt

abbrev pub or_else : Ordering → Ordering → Ordering
or_else eq o = o
or_else lt o = lt
or_else gt o = gt

-- `a <= b`
abbrev pub at_most : Ordering → Bool
at_most gt = false
at_most _ = true

pub record Lawful {ℓ} {A : Type ℓ} (cmp : A → A → Ordering) : Type ℓ where
  pub swap : (a b : A) → cmp b a ≡ flip (cmp a b)
  pub trans : (a b c : A) → cmp a b ≡ lt → cmp b c ≡ lt → cmp a c ≡ lt
  pub same : (a b c : A) → cmp a b ≡ eq → cmp a c ≡ cmp b c

pub compare-Lawful : Lawful compare
compare-Lawful = record {
  swap = λ a b. ground arith;
  trans = λ a b c h k. ground arith;
  same = λ a b c h. ground arith;
}

unfoldable pub compare_codes : List ℕ → List ℕ → Ordering
compare_codes [] [] = eq
compare_codes [] (d ∷ ds) = lt
compare_codes (c ∷ cs) [] = gt
compare_codes (c ∷ cs) (d ∷ ds) = or_else (compare c d) (compare_codes cs ds)

codes_swap : (s t : List ℕ) → compare_codes t s ≡ flip (compare_codes s t)
unfolding compare_codes
codes_swap [] [] = refl
codes_swap [] (d ∷ ds) = refl
codes_swap (c ∷ cs) [] = refl
codes_swap (c ∷ cs) (d ∷ ds) = ground (arith, codes_swap cs ds)

codes_trans :
    (r s t : List ℕ) → compare_codes r s ≡ lt → compare_codes s t ≡ lt → compare_codes r t ≡ lt
unfolding compare_codes
codes_trans [] [] t h k = cc
codes_trans [] (b ∷ s) [] h k = cc
codes_trans [] (b ∷ s) (c ∷ t) h k = refl
codes_trans (a ∷ r) [] t h k = cc
codes_trans (a ∷ r) (b ∷ s) [] h k = cc
codes_trans (a ∷ r) (b ∷ s) (c ∷ t) h k = ground (arith, codes_trans r s t)

codes_same : (r s t : List ℕ) → compare_codes r s ≡ eq → compare_codes r t ≡ compare_codes s t
unfolding compare_codes
codes_same [] [] t h = refl
codes_same [] (b ∷ s) t h = cc
codes_same (a ∷ r) [] t h = cc
codes_same (a ∷ r) (b ∷ s) [] h = refl
codes_same (a ∷ r) (b ∷ s) (c ∷ t) h = ground (arith, codes_same r s t)

unfoldable pub compare_text : String → String → Ordering
unfolding compare_codes
compare_text s t = compare_codes (codes s) (codes t)

pub compare_text-Lawful : Lawful compare_text
unfolding compare_text
compare_text-Lawful = record {
  swap = λ a b. codes_swap (codes a) (codes b);
  trans = λ a b c. codes_trans (codes a) (codes b) (codes c);
  same = λ a b c. codes_same (codes a) (codes b) (codes c);
}

pub or_else-eq : (o p : Ordering) → or_else o p ≡ eq → (o ≡ eq) × (p ≡ eq)
or_else-eq lt p h = absurd (cc)
or_else-eq eq p h = (refl, h)
or_else-eq gt p h = absurd (cc)

-- Texts that compare equal are equal.
pub compare_text-eq : (s t : String) → compare_text s t ≡ eq → s ≡ t
unfolding compare_text
compare_text-eq String.[] String.[] h = refl
compare_text-eq String.[] (String.◌∷◌ d t) h = absurd (cc)
compare_text-eq (String.◌∷◌ c s) String.[] h = absurd (cc)
compare_text-eq (String.◌∷◌ c s) (String.◌∷◌ d t) h =
    let parts = or_else-eq (compare (code c) (code d)) (compare_codes (codes s) (codes t)) h in
    let rest = compare_text-eq s t parts.1 in λ i. String.◌∷◌ (codes_equal c d parts.0 i) (rest i)

module _ {ℓ} {A : Type ℓ} where
  -- A key that is a component, and a key that is a pair.
  pub on-Lawful {κ} :
      {B : Type κ} {cmp : B → B → Ordering} (f : A → B)
      → Lawful cmp
      → Lawful (λ (a b : A). cmp (f a) (f b))
  on-Lawful f l = record {
    swap = λ a b. l.swap (f a) (f b);
    trans = λ a b c. l.trans (f a) (f b) (f c);
    same = λ a b c. l.same (f a) (f b) (f c);
  }

  pub or_else-Lawful :
      {c d : A → A → Ordering} → Lawful c → Lawful d → Lawful (λ a b. or_else (c a b) (d a b))
  or_else-Lawful {c} {d} l m = record {
    swap = λ x y. ground (arith, l.swap x y, m.swap x y);
    trans = λ x y z h k. ground (
      arith,
      l.trans x y z,
      m.trans x y z,
      l.same x y z,
      l.same z y x,
      l.swap y z,
      l.swap x z,
      l.swap x y,
    );
    same = λ x y z h. ground (arith, l.same x y z, m.same x y z);
  }
