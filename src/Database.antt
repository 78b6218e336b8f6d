-- ===== src/Database.antt =====
-- The database client (@prisma/client), which is not part of the repository: its calls on one table
-- as a record of functions over the list of the table's rows, with the documented behaviour that
-- the repositories rely on as the record's laws. A `where` is a test of a row, and `data` a function
-- of it.
pub mod Rows
pub mod Reference
use wall_e_campus_assistant.Prelude.{
  ℕ, ◌≤◌, ◌<◌, ◌≡◌, Bool, true, Option, List, count, find, length, ◌∈◌, ◌↔◌, any, ◌++◌, ◌∷◌, [],
  none, some, if◌then◌else◌,
}
use wall_e_campus_assistant.Text.{Text, to_lower_case}
use wall_e_campus_assistant.Database.Rows.Laws.{Distinct}
use Rows.{update_where, insert_new, insert_all, remove_where}

pub record Prisma : Type 1 where
  -- findUnique, and findFirst where no order is asked for.
  pub find_unique : (A : Type 0) → (A → Bool) → List A → Option A
  pub find_unique_lem :
      (A : Type 0) (test : A → Bool) (rows : List A) → find_unique A test rows ≡ find test rows
  -- findFirst with orderBy a column, descending.
  pub find_latest : (A : Type 0) → (A → Bool) → (A → ℕ) → List A → Option A
  pub find_latest_some :
      (A : Type 0) (test : A → Bool) (key : A → ℕ) (rows : List A) (r : A)
      → find_latest A test key rows ≡ some r
      → (r ∈ rows) × (test r ≡ true) × ((x : A) → x ∈ rows → test x ≡ true → key x ≤ key r)
  pub find_latest_none :
      (A : Type 0) (test : A → Bool) (key : A → ℕ) (rows : List A)
      → find_latest A test key rows ≡ none
      → (x : A) → x ∈ rows
      → test x ≡ true
      → ⊥
  -- findMany with orderBy a column, ascending, and take.
  pub find_many : (A : Type 0) → (A → Bool) → (A → ℕ) → ℕ → List A → List A
  pub find_many_sound :
      (A : Type 0) (test : A → Bool) (key : A → ℕ) (limit : ℕ) (rows : List A) (x : A)
      → x ∈ find_many A test key limit rows
      → (x ∈ rows) × (test x ≡ true)
  pub find_many_take :
      (A : Type 0) (test : A → Bool) (key : A → ℕ) (limit : ℕ) (rows : List A)
      → length (find_many A test key limit rows) ≤ limit
  pub find_many_complete :
      (A : Type 0) (test : A → Bool) (key : A → ℕ) (limit : ℕ) (rows : List A) (x : A)
      → length (find_many A test key limit rows) < limit
      → x ∈ rows
      → test x ≡ true
      → x ∈ find_many A test key limit rows
  -- findMany with no limit.
  pub find_all : (A : Type 0) → (A → Bool) → List A → List A
  pub find_all_iff :
      (A : Type 0) (test : A → Bool) (rows : List A) (x : A)
      → (x ∈ find_all A test rows) ↔ ((x ∈ rows) × (test x ≡ true))
  -- A row is returned once.
  pub find_all_once :
      (A : Type 0) (conflict : A → A → Bool) (test : A → Bool) (rows : List A)
      → Distinct conflict rows
      → Distinct conflict (find_all A test rows)
  -- The same with orderBy a column, ascending.
  pub find_all_by : (A : Type 0) → (A → ℕ) → (A → Bool) → List A → List A
  pub find_all_by_iff :
      (A : Type 0) (key : A → ℕ) (test : A → Bool) (rows : List A) (x : A)
      → (x ∈ find_all_by A key test rows) ↔ ((x ∈ rows) × (test x ≡ true))
  -- count
  pub count_rows : (A : Type 0) → (A → Bool) → List A → ℕ
  pub count_rows_lem :
      (A : Type 0) (test : A → Bool) (rows : List A) → count_rows A test rows ≡ count test rows
  -- updateMany returns how many rows it changed; update is the same on a unique key.
  pub update_many : (A : Type 0) → (A → Bool) → (A → A) → List A → List A × ℕ
  pub update_many_lem :
      (A : Type 0) (test : A → Bool) (change : A → A) (rows : List A)
      → update_many A test change rows ≡ (update_where test change rows, count test rows)
  -- create: none is the error P2002 of a unique constraint, `conflict` the constraint.
  pub create : (A : Type 0) → (A → A → Bool) → A → List A → Option (List A)
  pub create_lem :
      (A : Type 0) (conflict : A → A → Bool) (r : A) (rows : List A)
      → create A conflict r rows ≡ insert_new conflict r rows
  -- createMany with skipDuplicates.
  pub create_many : (A : Type 0) → (A → A → Bool) → List A → List A → List A × ℕ
  pub create_many_lem :
      (A : Type 0) (conflict : A → A → Bool) (new rows : List A)
      → create_many A conflict new rows ≡ insert_all conflict new rows
  -- deleteMany
  pub delete_many : (A : Type 0) → (A → Bool) → List A → List A × ℕ
  pub delete_many_lem :
      (A : Type 0) (test : A → Bool) (rows : List A)
      → delete_many A test rows ≡ (remove_where test rows, count test rows)
  -- The order of texts in the filters lt and gt; nothing is relied on but that it is one.
  pub text_less : Text → Text → Bool
  -- A text filter { equals, mode: "insensitive" }: ILIKE, for texts that have none of its signs %, _ and
  -- backslash, and whose letters other than A to Z are written alike.
  pub equals_insensitive : Text → Text → Bool
  pub equals_insensitive_iff :
      (a b : Text) → (equals_insensitive a b ≡ true) ↔ (to_lower_case a ≡ to_lower_case b)
