-- ===== src/Tasks/Writes.antt =====
-- What one statement of a transaction does to the tables, and the shape of a whole transaction: it
-- writes one row, may record one attempt, and leaves every other task alone.
use career_agent_harness.Base.{
  ℕ, String, Bool, true, false, ◌||◌, ◌&&◌, List, [], ◌∷◌, ◌++◌, Option, none, some, ◌≡◌, ◌∙◌,
  arith, ◌==◌, str_eq, any-append, if◌then◌else◌,
}
use career_agent_harness.Base.Table.{lookup, insert, lookup-insert, Distinct, Distinct-insert}
use career_agent_harness.Tasks.Model.{Row, Attempt, Db, has_attempt, update_where}

abbrev pub listed : Option Attempt → List Attempt
listed none = []
listed (some a) = a ∷ []

-- The row of `id` becomes `r`, `extra` is recorded, and nothing else changes but the events.
pub record Wrote (id : String) (r : Row) (extra : Option Attempt) (db db' : Db) : Type 0 where
  pub rows : (k : String) → lookup k db'.rows ≡ (if str_eq id k then some r else lookup k db.rows)
  pub distinct : Distinct db.rows → Distinct db'.rows
  pub attempts : db'.attempts ≡ db.attempts ++ listed extra

module _ (id : String) (r : Row) (extra : Option Attempt) (db db' : Db)
    (recorded : db'.attempts ≡ db.attempts ++ listed extra) where
  pub Wrote-insert : db'.rows ≡ insert id r db.rows → Wrote id r extra db db'
  Wrote-insert e = record {
    rows = λ k. rw (e, lookup-insert);
    distinct = λ d. rw e (Distinct-insert id r db.rows d);
    attempts = recorded;
  }

  pub Wrote-insert_twice :
      (s : Row) → db'.rows ≡ insert id r (insert id s db.rows) → Wrote id r extra db db'
  Wrote-insert_twice s e = record {
    rows = λ k.
        rw e (
          ground (arith, lookup-insert id k r (insert id s db.rows), lookup-insert id k s db.rows));
    distinct =
        λ d. rw e (Distinct-insert id r (insert id s db.rows) (Distinct-insert id s db.rows d));
    attempts = recorded;
  }

module _ (id : String) (guard : Row → Bool) (change : Row → Row) (db : Db) where
  pub update_where_hit :
      (r : Row)
      → lookup id db.rows ≡ some r
      → guard r ≡ true
      → update_where id guard change db ≡ (true, record db { rows = insert id (change r) db.rows })
  unfolding update_where
  update_where_hit r found pass = rw (found, pass, update_where)

  pub update_where_miss :
      (r : Row)
      → lookup id db.rows ≡ some r
      → guard r ≡ false
      → update_where id guard change db ≡ (false, db)
  unfolding update_where
  update_where_miss r found pass = rw (found, pass, update_where)

  pub update_where-none : lookup id db.rows ≡ none → update_where id guard change db ≡ (false, db)
  unfolding update_where
  update_where-none missing = rw (missing, update_where)

pub has_attempt-append :
    (k : String) (n : ℕ) (old : List Attempt) (a : Attempt)
    → has_attempt k n (old ++ a ∷ [])
      ≡ has_attempt k n old || (str_eq a.task_id k && a.attempt == n)
unfolding has_attempt
has_attempt-append k n old a = any-append _ old (a ∷ []) ∙ ground arith
