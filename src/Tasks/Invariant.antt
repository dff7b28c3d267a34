-- ===== src/Tasks/Invariant.antt =====
-- What holds of the queue between two transactions of `Step`.
use mathlib.Core.Option
use mathlib.Core.List.{append-nil}
use career_agent_harness.Base.{
  ℕ, String, Bool, true, false, ◌||◌, List, ◌++◌, Option, none, some, ◌≡◌, refl, ap, ◌∙◌, ◌⊎◌, inl,
  inr, arith, ◌+◌, ◌≤◌, ◌<◌, ◌==◌, str_eq, eq_iff, Bool-cases,
}
use career_agent_harness.Base.Table.{lookup, Distinct}
use career_agent_harness.Tasks.Model.{Attempt, Db, has_attempt, is_busy}
use career_agent_harness.Tasks.Writes.{listed, has_attempt-append}
use career_agent_harness.Tasks.Machine.{Phase, phase, Move, Step, Reach, empty_db}
use career_agent_harness.Tasks.Refinement.{Records, Moved, Step-Moved}

-- Of a task: its counters are positive, the attempt under way is not recorded, and none above it.
pub record IsCounted (old : List Attempt) (id : String) (p : Phase) : Type 0 where
  pub versioned : 1 ≤ p.version
  pub limited : 1 ≤ p.limit
  pub started : is_busy p.status ≡ true → 1 ≤ p.attempt
  pub unrecorded : is_busy p.status ≡ true → has_attempt id p.attempt old ≡ false
  pub above : (n : ℕ) → p.attempt < n → has_attempt id n old ≡ false

abbrev pub KeyOk : List Attempt → String → Option Phase → Type 0
KeyOk old id none = (n : ℕ) → has_attempt id n old ≡ false
KeyOk old id (some p) = IsCounted old id p

pub record Inv (db : Db) : Type 0 where
  pub distinct : Distinct db.rows
  pub keys : (k : String) → KeyOk db.attempts k (Option.map phase (lookup k db.rows))

abbrev is_number : Option ℕ → ℕ → Bool
is_number none m = false
is_number (some a) m = a == m

module _ (old new : List Attempt) (id : String) (p : Option Phase) (q : Phase) (n : Option ℕ)
    (grow : (m : ℕ) → has_attempt id m new ≡ has_attempt id m old || is_number n m) where
  counted : (s : Phase) → KeyOk old id p → p ≡ some s → IsCounted old id s
  counted s k e = rw e at k

  Create-IsCounted :
      KeyOk old id p
      → p ≡ none
      → 1 ≤ q.limit
      → q.version ≡ 1
      → q.attempt ≡ 0
      → is_busy q.status ≡ false
      → n ≡ none
      → IsCounted new id q
  Create-IsCounted k e lo v a b en =
      let c : (m : ℕ) → has_attempt id m old ≡ false = rw e at k in
      record {
        versioned = omega arith;
        limited = lo;
        started = ground arith;
        unrecorded = ground arith;
        above = λ m lt. ground (arith, grow m, c m);
      }

  -- The same or a later attempt, which is not under way.
  Rest-IsCounted :
      (s : Phase)
      → IsCounted old id s
      → s.version ≤ q.version
      → s.limit ≤ q.limit
      → q.attempt ≡ s.attempt
      → is_busy q.status ≡ false
      → (n ≡ none) ⊎ (n ≡ some s.attempt)
      → IsCounted new id q
  Rest-IsCounted s c v l a b en = record {
    versioned = omega (arith, c.versioned);
    limited = omega (arith, c.limited);
    started = ground arith;
    unrecorded = ground arith;
    above = λ m lt. ground (arith, grow m, c.above m);
  }

  Take-IsCounted :
      (s : Phase)
      → IsCounted old id s
      → s.version ≡ q.version
      → s.limit ≡ q.limit
      → q.attempt ≡ s.attempt + 1
      → n ≡ none
      → IsCounted new id q
  Take-IsCounted s c v l a en = record {
    versioned = omega (arith, c.versioned);
    limited = omega (arith, c.limited);
    started = λ _. omega arith;
    unrecorded = λ _. ground (arith, grow q.attempt, c.above q.attempt);
    above = λ m lt. ground (arith, grow m, c.above m);
  }

  Work-IsCounted : IsCounted old id q → n ≡ none → IsCounted new id q
  Work-IsCounted c en = record {
    versioned = c.versioned;
    limited = c.limited;
    started = c.started;
    unrecorded = λ b. ground (arith, grow q.attempt, c.unrecorded b);
    above = λ m lt. ground (arith, grow m, c.above m);
  }

  Move-IsCounted : KeyOk old id p → Move p q n → IsCounted new id q
  Move-IsCounted k (Move.create e lo hi e' en) =
      Create-IsCounted k e lo (ap (λ (x : Phase). x.version) e') (ap (λ (x : Phase). x.attempt) e')
        (ground arith) en
  Move-IsCounted k (Move.take s e w e' en) =
      Take-IsCounted s (counted s k e) (ground arith) (ground arith) (ground arith) en
  Move-IsCounted k (Move.work e w en) = Work-IsCounted (counted q k e) en
  Move-IsCounted k (Move.succeed s e w e' en) =
      Rest-IsCounted s (counted s k e) (ground arith) (ground arith) (ground arith) (ground arith)
        (inr en)
  Move-IsCounted k (Move.give_up s b e w e' en) =
      Rest-IsCounted s (counted s k e) (ground arith) (ground arith) (ground arith) (ground arith)
        (inr en)
  Move-IsCounted k (Move.stop s e w e' en) =
      Rest-IsCounted s (counted s k e) (ground arith) (ground arith) (ground arith) (ground arith)
        (ground arith)
  Move-IsCounted k (Move.restart s e w e' en) =
      Rest-IsCounted s (counted s k e) (ground arith) (ground arith) (ground arith) (ground arith)
        (inl en)
  Move-IsCounted k (Move.extend s e w e' en) =
      Rest-IsCounted s (counted s k e) (ground arith) (ground arith) (ground arith) (ground arith)
        (inl en)

-- What is recorded of the task that moves, and of another.
grown_self :
    (id : String) (extra : Option Attempt) (number : Option ℕ) (old : List Attempt) (m : ℕ)
    → Records id extra number
    → has_attempt id m (old ++ listed extra) ≡ has_attempt id m old || is_number number m
grown_self id none number old m e = ground (arith, append-nil old)
grown_self id (some a) number old m (same, e) =
    has_attempt-append id m old a ∙ ground (arith, eq_iff a.task_id id)

grown_other :
    (id k : String) (extra : Option Attempt) (number : Option ℕ) (old : List Attempt) (m : ℕ)
    → Records id extra number
    → str_eq id k ≡ false
    → has_attempt k m (old ++ listed extra) ≡ has_attempt k m old
grown_other id k none number old m e other = ground (arith, append-nil old)
grown_other id k (some a) number old m (same, e) other =
    has_attempt-append k m old a ∙ ground (arith, ap (λ t. str_eq t k) same)

KeyOk-same :
    (old new : List Attempt) (k : String) (p : Option Phase)
    → ((m : ℕ) → has_attempt k m new ≡ has_attempt k m old)
    → KeyOk old k p
    → KeyOk new k p
KeyOk-same old new k none same h = λ n. same n ∙ h n
KeyOk-same old new k (some q) same h = record {
  versioned = h.versioned;
  limited = h.limited;
  started = h.started;
  unrecorded = λ b. same q.attempt ∙ h.unrecorded b;
  above = λ n lt. same n ∙ h.above n lt;
}

Moved-Inv : {db db' : Db} → Inv db → Moved db db' → Inv db'
Moved-Inv {db} {db'} i m = record {
  distinct = m.wrote.distinct i.distinct;
  keys = λ k. elim (Bool-cases (str_eq m.id k)) [
    | inl same ↦
        rw (m.wrote.rows k, same)
          (rw (← (eq_iff m.id k).0 same) (
            Move-IsCounted db.attempts db'.attempts m.id _ (phase m.row) m.number
              (λ n. rw m.wrote.attempts (grown_self m.id m.extra m.number db.attempts n m.recorded))
              (i.keys m.id) m.move))
    | inr other ↦
        rw (m.wrote.rows k, other)
          (KeyOk-same db.attempts db'.attempts k _
            (λ n.
              rw m.wrote.attempts
                (grown_other m.id k m.extra m.number db.attempts n m.recorded other))
            (i.keys k))
  ];
}

-- Every transaction keeps the invariant.
pub Step-Inv : {db db' : Db} → Inv db → Step db db' → Inv db'
Step-Inv i s = elim (Step-Moved s) [ inl m ↦ Moved-Inv i m | inr e ↦ rw e i ]

pub empty_db-Inv : Inv empty_db
unfolding lookup has_attempt
empty_db-Inv = record { distinct = tt; keys = λ k n. refl }

-- Over every run of transactions of workers and users in which a claim, a cancellation and a requeue
-- find the row that they have read unchanged when they write, the invariant stays: one row per task,
-- positive versions and limits, and the attempt under way, and none above it, is not recorded.
pub Reach-Inv : {db db' : Db} → Inv db → Reach db db' → Inv db'
Reach-Inv i Reach.here = i
Reach-Inv i (Reach.next r s) = Step-Inv (Reach-Inv i r) s
