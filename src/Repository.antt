-- ===== src/Repository.antt =====
-- `BaseService` (src/commun/generic-crud.service.ts), for any entity with the columns of
-- `TimestampEntity` (src/commun/entities/timestamp.entity.ts). The table of a TypeORM repository is the
-- list of its rows, the deleted ones included; a row that breaks a unique column is not written.
mod Examples
pub mod Restoring
use codeweaknesses.Common.{
  arith, eq_iff, false, ℕ, zero, suc, String, ◌≡◌, refl, false, Bool, not, ◌&&◌, Option, none, some,
  List, [], ◌∷◌, ◌++◌, map, filter, any, find, count, is_some, if◌then◌else◌, ◌==◌,
}
use codeweaknesses.Common.Results.{Result, ok, err, not_found, internal, ◌>>=◌}
use codeweaknesses.Entities.{User, Contest, Problem, TestCase}

-- The columns that the service reads and writes, and the unique columns that two rows may share.
pub record Entity (T : Type 0) : Type 0 where
  pub id_of : T → String
  pub deleted_of : T → Option ℕ
  pub with_deleted : Option ℕ → T → T
  pub conflicts : T → T → Bool
  pub id-with_deleted : (at : Option ℕ) (row : T) → id_of (with_deleted at row) ≡ id_of row
  pub deleted-with_deleted : (at : Option ℕ) (row : T) → deleted_of (with_deleted at row) ≡ at
  pub with_deleted-twice :
      (at before : Option ℕ) (row : T)
      → with_deleted at (with_deleted before row) ≡ with_deleted at row
  pub with_deleted-same : (row : T) → with_deleted (deleted_of row) row ≡ row

module _ {T : Type 0} ⦃entity : Entity T⦄ where
  abbrev pub has_id : String → T → Bool
  has_id id row = entity.id_of row == id

  -- `withDeleted: false`
  abbrev pub is_there : T → Bool
  is_there row = not (is_some (entity.deleted_of row))

  abbrev pub is_found : String → T → Bool
  is_found id row = has_id id row && is_there row

  abbrev pub is_refused : T → T → Bool
  is_refused row other = not (has_id (entity.id_of row) other) && entity.conflicts row other

  -- `repository.save`: the row with that identifier is replaced, deleted or not, or the row is new; it
  -- rejects where the database refuses the row for a unique column of the entity (`conflicts`).
  unfoldable pub save : T → List T → Result (T × List T)
  save row table =
      if any (is_refused row) table
      then err (internal "QueryFailedError")
      else (if any (has_id (entity.id_of row)) table
          then ok (row, map (λ r. if has_id (entity.id_of row) r then row else r) table)
          else ok (row, table ++ row ∷ []))

  -- The row is the DTO with the columns that the database fills in.
  unfoldable pub create : T → List T → Result (T × List T)
  unfolding save
  create row table = save row table

  unfoldable pub find_all : List T → List T
  find_all table = filter is_there table

  unfoldable pub find_one : String → List T → Result T
  find_one id table = elim (find (is_found id) table) [
    | none ↦ err (not_found "Not Found")
    | some row ↦ ok row
  ]

  -- `merge` copies the fields of the DTO over the row.
  unfoldable pub update : String → (T → T) → List T → Result (T × List T)
  unfolding find_one save
  update id merge table = find_one id table >>= λ existing. save (merge existing) table

  -- `repository.softDelete(id)` and `repository.restore(id)` write the column of every such row.
  abbrev pub mark : String → Option ℕ → List T → List T
  mark id at = map (λ r. if has_id id r then entity.with_deleted at r else r)

  unfoldable pub remove : ℕ → String → List T → Result (List T)
  unfolding find_one
  remove now id table = find_one id table >>= λ existing. ok (mark id (some now) table)

  -- The rows affected, and the table.
  unfoldable pub restore : String → List T → Result (ℕ × List T)
  restore id table = elim (count (has_id id) table) [
    | zero ↦ err (not_found "Entity not found")
    | suc n ↦ ok (suc n, mark id none table)
  ]

-- `@Column({ unique: true }) name`
instance abbrev pub user_entity : Entity User
user_entity = record {
  id_of = λ u. u.id;
  deleted_of = λ u. u.deleted_at;
  with_deleted = λ at u. record u { deleted_at = at };
  conflicts = λ u v. v.name == u.name;
  id-with_deleted = λ at u. refl;
  deleted-with_deleted = λ at u. refl;
  with_deleted-twice = λ at before u. refl;
  with_deleted-same = λ u. refl;
}

instance abbrev pub contest_entity : Entity Contest
contest_entity = record {
  id_of = λ c. c.id;
  deleted_of = λ c. c.deleted_at;
  with_deleted = λ at c. record c { deleted_at = at };
  conflicts = λ c d. false;
  id-with_deleted = λ at c. refl;
  deleted-with_deleted = λ at c. refl;
  with_deleted-twice = λ at before c. refl;
  with_deleted-same = λ c. refl;
}

instance abbrev pub problem_entity : Entity Problem
problem_entity = record {
  id_of = λ p. p.id;
  deleted_of = λ p. p.deleted_at;
  with_deleted = λ at p. record p { deleted_at = at };
  conflicts = λ p q. false;
  id-with_deleted = λ at p. refl;
  deleted-with_deleted = λ at p. refl;
  with_deleted-twice = λ at before p. refl;
  with_deleted-same = λ p. refl;
}
