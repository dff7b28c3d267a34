-- ===== src/Match/Scopes.antt =====
-- `CapabilityEvidenceScope`, and Python sets of scopes. A set is a record of five Booleans, so that
-- equal sets are equal.
use career_agent_harness.Base.{
  Bool, true, false, not, ◌||◌, ◌&&◌, List, [], ◌∷◌, ◌++◌, if◌then◌else◌,
}

pub data Scope : Type 0 where
  understand explain apply evidence interview_ready : Scope

pub record Scopes : Type 0 where
  pub understand : Bool
  pub explain : Bool
  pub apply : Bool
  pub evidence : Bool
  pub interview_ready : Bool

abbrev pub empty_set : Scopes
empty_set = record {
  understand = false;
  explain = false;
  apply = false;
  evidence = false;
  interview_ready = false;
}

abbrev pub add : Scope → Scopes → Scopes
add Scope.understand s = record s { understand = true }
add Scope.explain s = record s { explain = true }
add Scope.apply s = record s { apply = true }
add Scope.evidence s = record s { evidence = true }
add Scope.interview_ready s = record s { interview_ready = true }

-- `set(scopes)`
unfoldable pub set_of : List Scope → Scopes
set_of [] = empty_set
set_of (x ∷ xs) = add x (set_of xs)

-- `a & b`, `a | b`, `a - b`
abbrev pub inter : Scopes → Scopes → Scopes
inter a b = record {
  understand = a.understand && b.understand;
  explain = a.explain && b.explain;
  apply = a.apply && b.apply;
  evidence = a.evidence && b.evidence;
  interview_ready = a.interview_ready && b.interview_ready;
}

abbrev pub union : Scopes → Scopes → Scopes
union a b = record {
  understand = a.understand || b.understand;
  explain = a.explain || b.explain;
  apply = a.apply || b.apply;
  evidence = a.evidence || b.evidence;
  interview_ready = a.interview_ready || b.interview_ready;
}

abbrev pub diff : Scopes → Scopes → Scopes
diff a b = record {
  understand = a.understand && not b.understand;
  explain = a.explain && not b.explain;
  apply = a.apply && not b.apply;
  evidence = a.evidence && not b.evidence;
  interview_ready = a.interview_ready && not b.interview_ready;
}

-- `bool(a)`, `a <= b` and `a == b`
abbrev pub is_nonempty : Scopes → Bool
is_nonempty a = a.understand || a.explain || a.apply || a.evidence || a.interview_ready

abbrev pub is_within : Scopes → Scopes → Bool
is_within a b = not (is_nonempty (diff a b))

abbrev pub equal : Scopes → Scopes → Bool
equal a b = is_within a b && is_within b a

unfoldable pub one_if : Bool → Scope → List Scope
one_if b s = if b then s ∷ [] else []

-- `_ordered_scopes`: the scopes of a set in the order in which the enumeration declares them.
unfoldable pub ordered_scopes : Scopes → List Scope
unfolding one_if
ordered_scopes a =
    one_if a.understand Scope.understand
    ++ one_if a.explain Scope.explain
    ++ one_if a.apply Scope.apply
    ++ one_if a.evidence Scope.evidence
    ++ one_if a.interview_ready Scope.interview_ready
