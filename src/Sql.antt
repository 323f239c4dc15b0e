-- ===== src/Sql.antt =====
-- The clauses of the SQL statements in src/ticketflow/*.py, on a table kept as the list of its
-- rows: WHERE, UPDATE, DELETE, RETURNING, ORDER BY with LIMIT 1, count(*) and fetchone.
pub mod Laws
pub mod Pick
pub mod Rows
use ticket_graph.Prelude.{
  ℕ, Bool, true, false, Option, none, some, List, [], ◌∷◌, leb, if◌then◌else◌,
}

module _ {ℓ} {A : Type ℓ} where
  -- `SELECT ... WHERE p`
  unfoldable pub select_where : (A → Bool) → List A → List A
  select_where p [] = []
  select_where p (x ∷ xs) = if p x then x ∷ select_where p xs else select_where p xs

  -- `UPDATE ... SET f WHERE p`
  unfoldable pub update_where : (A → Bool) → (A → A) → List A → List A
  update_where p f [] = []
  update_where p f (x ∷ xs) = (if p x then f x else x) ∷ update_where p f xs

  -- the rows that the `RETURNING` of that statement gives
  unfoldable pub updated : (A → Bool) → (A → A) → List A → List A
  updated p f [] = []
  updated p f (x ∷ xs) = if p x then f x ∷ updated p f xs else updated p f xs

  -- `DELETE ... WHERE p`
  unfoldable pub delete_where : (A → Bool) → List A → List A
  delete_where p [] = []
  delete_where p (x ∷ xs) = if p x then delete_where p xs else x ∷ delete_where p xs

  -- `EXISTS (SELECT 1 ... WHERE p)`, and the conflict of a unique index
  unfoldable pub exists_where : (A → Bool) → List A → Bool
  exists_where p [] = false
  exists_where p (x ∷ xs) = if p x then true else exists_where p xs

  -- `cursor.fetchone()`
  abbrev pub fetchone : List A → Option A
  fetchone [] = none
  fetchone (x ∷ xs) = some x

  abbrev earlier : (A → ℕ) → A → Option A → A
  earlier key x none = x
  earlier key x (some y) = if leb (key x) (key y) then x else y

  -- `ORDER BY key LIMIT 1`. Of rows with one key, which SQL leaves open, the first in the table.
  unfoldable pub first_by : (A → ℕ) → List A → Option A
  first_by key [] = none
  first_by key (x ∷ xs) = some (earlier key x (first_by key xs))
