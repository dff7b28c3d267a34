-- ===== src/Match/Sets.antt =====
-- Sets of scopes, one scope at a time.
use career_agent_harness.Base.{Bool, not, ◌||◌, ◌&&◌, List, [], ◌∷◌, any, ◌≡◌, refl, arith}
use career_agent_harness.Match.Scopes.{
  Scope, Scopes, set_of, inter, union, diff, is_nonempty, ordered_scopes, one_if,
}

abbrev pub has : Scope → Scopes → Bool
has Scope.understand a = a.understand
has Scope.explain a = a.explain
has Scope.apply a = a.apply
has Scope.evidence a = a.evidence
has Scope.interview_ready a = a.interview_ready

abbrev pub is_scope : Scope → Scope → Bool
is_scope s t = has s (set_of (t ∷ []))

abbrev pub scope_in : Scope → List Scope → Bool
scope_in s = any (is_scope s)

pub has-set_of : (s : Scope) (xs : List Scope) → has s (set_of xs) ≡ scope_in s xs
unfolding set_of
has-set_of s [] = ground arith
has-set_of s (x ∷ xs) = ground (arith, has-set_of s xs)

pub has-union : (s : Scope) (a b : Scopes) → has s (union a b) ≡ has s a || has s b
has-union s a b = ground arith

pub has-inter : (s : Scope) (a b : Scopes) → has s (inter a b) ≡ has s a && has s b
has-inter s a b = ground arith

pub has_covered :
    (s : Scope) (p q r : Scopes)
    → has s (inter (inter p r) (inter q r)) ≡ has s r && (has s p && has s q)
has_covered s p q r = ground arith

pub has_missing :
    (s : Scope) (p q r : Scopes)
    → has s (diff r (inter (inter p r) (inter q r))) ≡ has s r && not (has s p && has s q)
has_missing s p q r = ground arith

pub has_touched :
    (s : Scope) (p q r : Scopes)
    → has s (union (inter p r) (inter q r)) ≡ has s r && (has s p || has s q)
has_touched s p q r = ground arith

-- A set of scopes by a test.
abbrev pub tabulate : (Scope → Bool) → Scopes
tabulate f = record {
  understand = f Scope.understand;
  explain = f Scope.explain;
  apply = f Scope.apply;
  evidence = f Scope.evidence;
  interview_ready = f Scope.interview_ready;
}

pub has-tabulate :
    (s : Scope) (f : Scope → Bool) (r : Scopes) → has s (inter r (tabulate f)) ≡ has s r && f s
has-tabulate s f r = ground arith

pub is_nonempty-any :
    (f : Scope → Bool) (xs : List Scope) → is_nonempty (inter (set_of xs) (tabulate f)) ≡ any f xs
unfolding set_of
is_nonempty-any f [] = ground arith
is_nonempty-any f (x ∷ xs) = ground (arith, is_nonempty-any f xs)

pub is_nonempty-same :
    (a b : Scopes) → ((s : Scope) → has s a ≡ has s b) → is_nonempty a ≡ is_nonempty b
is_nonempty-same a b h =
    rw
      (
        h Scope.understand,
        h Scope.explain,
        h Scope.apply,
        h Scope.evidence,
        h Scope.interview_ready,
      )
      refl

pub scope_in-ordered_scopes : (s : Scope) (a : Scopes) → scope_in s (ordered_scopes a) ≡ has s a
unfolding ordered_scopes one_if set_of
scope_in-ordered_scopes s a = ground arith
