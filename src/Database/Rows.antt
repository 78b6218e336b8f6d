-- ===== src/Database/Rows.antt =====
-- What the writes do to the rows of a table.
pub mod Laws
pub mod Single
use wall_e_campus_assistant.Prelude.{
  ℕ, zero, suc, ◌+◌, ◌≤◌, ◌≡◌, ◌⊎◌, ◌↔◌, ◌≢◌, refl, inl, inr, Bool, true, false, not, Option, some,
  none, List, [], ◌∷◌, ◌++◌, keep, any, count, find, if◌then◌else◌, ◌∈◌, Bool-cases, arith, All,
  sym, ap, ◌∙◌,
}

-- updateMany: the rows that pass the test are changed, in place.
unfoldable pub update_where : {A : Type 0} → (A → Bool) → (A → A) → List A → List A
update_where test change [] = []
update_where test change (r ∷ rows) =
    (if test r then change r else r) ∷ update_where test change rows

-- create: a row in conflict with one of the table is refused.
unfoldable pub insert_new : {A : Type 0} → (A → A → Bool) → A → List A → Option (List A)
insert_new conflict r rows = if any (conflict r) rows then none else some (rows ++ r ∷ [])

abbrev or_else : {A : Type 0} → List A → Option (List A) → List A × ℕ
or_else rows none = (rows, 0)
or_else rows (some rows') = (rows', 1)

-- createMany with skipDuplicates: each row in turn, with the number of those inserted.
unfoldable pub insert_all : {A : Type 0} → (A → A → Bool) → List A → List A → List A × ℕ
unfolding insert_new
insert_all conflict [] rows = (rows, 0)
insert_all conflict (r ∷ new) rows =
    let (rows', one) = or_else rows (insert_new conflict r rows) in
    let (rows'', more) = insert_all conflict new rows' in (rows'', one + more)

unfoldable pub remove_where : {A : Type 0} → (A → Bool) → List A → List A
remove_where test rows = keep (λ r. not (test r)) rows
