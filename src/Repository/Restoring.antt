-- ===== src/Repository/Restoring.antt =====
-- What is deleted softly can be restored.
use codeweaknesses.Common.{
  count-none, ◌∙◌, sym, inr, ap, inl, Option-cases, ℕ, String, ◌≡◌, refl, true, false, not, Option,
  none, some, List, [], ◌∷◌, filter, any, find, count, arith, eq_iff,
}
use codeweaknesses.Common.Results.{ok, err, not_found}
use codeweaknesses.Repository.{
  Entity, has_id, is_there, is_found, find_all, find_one, mark, remove, restore,
}

module _ {T : Type 0} ⦃entity : Entity T⦄ where
  -- The identifier is the primary key of the table.
  abbrev pub HasDistinctIds : List T → Type 0
  HasDistinctIds [] = Unit
  HasDistinctIds (r ∷ rows) = (any (has_id (entity.id_of r)) rows ≡ false) × HasDistinctIds rows

  find-none :
      (id : String) (rows : List T) → any (has_id id) rows ≡ false → find (is_found id) rows ≡ none
  find-none id [] h = refl
  find-none id (r ∷ rows) h = ground (arith, find-none id rows)

  mark-none :
      (id : String) (at : Option ℕ) (rows : List T)
      → any (has_id id) rows ≡ false
      → mark id at rows ≡ rows
  mark-none id at [] h = refl
  mark-none id at (r ∷ rows) h = ground (arith, mark-none id at rows)

  count-mark :
      (id : String) (at : Option ℕ) (rows : List T)
      → count (has_id id) (mark id at rows) ≡ count (has_id id) rows
  count-mark id at [] = refl
  count-mark id at (r ∷ rows) = ground (arith, count-mark id at rows, entity.id-with_deleted at r)

  find-mark :
      (now : ℕ) (id : String) (rows : List T) → find (is_found id) (mark id (some now) rows) ≡ none
  find-mark now id [] = refl
  find-mark now id (r ∷ rows) = ground (
    arith,
    find-mark now id rows,
    entity.id-with_deleted (some now) r,
    entity.deleted-with_deleted (some now) r,
  )

  find_all-mark :
      (now : ℕ) (id : String) (rows : List T)
      → filter is_there (mark id (some now) rows)
        ≡ filter (λ r. not (has_id id r)) (filter is_there rows)
  find_all-mark now id [] = refl
  find_all-mark now id (r ∷ rows) =
      ground (arith, find_all-mark now id rows, entity.deleted-with_deleted (some now) r)

  count-one :
      (id : String) (rows : List T) (row : T)
      → HasDistinctIds rows
      → find (is_found id) rows ≡ some row
      → count (has_id id) rows ≡ 1
  count-one id [] row d h = cc
  count-one id (r ∷ rows) row d h = ground (
    arith,
    eq_iff (entity.id_of r) id,
    find-none id rows,
    count-none (has_id id) rows,
    count-one id rows row d.1,
  )

  with_deleted-live : (row : T) → is_there row ≡ true → entity.with_deleted none row ≡ row
  with_deleted-live row h = elim (Option-cases (entity.deleted_of row)) [
    | inl e ↦ ap (λ at. entity.with_deleted at row) (sym e) ∙ entity.with_deleted-same row
    | inr (at, e) ↦ ground arith
  ]

  mark-back :
      (now : ℕ) (id : String) (rows : List T) (row : T)
      → HasDistinctIds rows
      → find (is_found id) rows ≡ some row
      → mark id none (mark id (some now) rows) ≡ rows
  mark-back now id [] row d h = refl
  mark-back now id (r ∷ rows) row d h = ground (
    arith,
    eq_iff (entity.id_of r) id,
    find-none id rows,
    mark-none id (some now) rows,
    mark-none id none rows,
    mark-back now id rows row d.1,
    with_deleted-live r,
    entity.with_deleted-twice none (some now) r,
    entity.id-with_deleted (some now) r,
  )

-- In a table whose identifiers are distinct, a row that is found can be removed. Then it is not found any
-- more, nor among all rows, which are otherwise the same and in the same order, and removing it again
-- fails. To restore it affects one row, and gives back the table as it was.
pub remove-restore :
    {T : Type 0} ⦃entity : Entity T⦄ (now later : ℕ) (id : String) (table : List T) (row : T)
    → HasDistinctIds table
    → find_one id table ≡ ok row
    → (after : List T) × (remove now id table ≡ ok after)
      × (find_one id after ≡ err (not_found "Not Found"))
      × (remove later id after ≡ err (not_found "Not Found"))
      × (find_all after ≡ filter (λ r. not (has_id id r)) (find_all table))
      × (restore id after ≡ ok (1, table))
unfolding remove find_one find_all restore
remove-restore now later id table row d h = elim (Option-cases (find (is_found id) table)) [
  | inl e ↦ absurd (ground arith)
  | inr (found, e) ↦ (
    mark id (some now) table,
    ground (arith, e),
    ground (arith, find-mark now id table),
    ground (arith, find-mark now id table),
    find_all-mark now id table,
    ground (
      arith,
      count-mark id (some now) table,
      count-one id table found d e,
      mark-back now id table found d e,
    ),
  )
]
