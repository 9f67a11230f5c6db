-- ===== src/Contests/Controller.antt =====
-- The routes of src/contest/contest.controller.ts. The bodies have the type `any`, so no pipe looks at
-- them: to create is to save any row, and to update is to merge anything into one.
use codeweaknesses.Common.{ℕ, String, Option, List, [], ◌∷◌}
use codeweaknesses.Common.Results.{Result, ok, ◌>>=◌}
use codeweaknesses.Entities.{Text, Contest}
use codeweaknesses.Auth.Guards.{guarded}
use codeweaknesses.Auth.Tokens.{Jwt}
use codeweaknesses.Contests.{finish_contest}
use codeweaknesses.Problems.Controller.{staff_roles}
use codeweaknesses.Repository.{contest_entity, create, find_all, update, remove, restore}

pub data ContestRequest : Type 0 where
  get_all_contests : ContestRequest
  create_contest : Contest → ContestRequest
  finish : String → ContestRequest
  update_contest : String → (Contest → Contest) → ContestRequest
  delete_contest restore_contest : String → ContestRequest

pub data ContestAnswer : Type 0 where
  contests_found : List Contest → ContestAnswer
  contest_or_null : Option Contest → ContestAnswer
  rows_affected : ℕ → ContestAnswer
  nothing : ContestAnswer

pub record Handled : Type 0 where
  pub answer : ContestAnswer
  pub table : List Contest
  pub emitted : List String

abbrev pub quietly : ContestAnswer → List Contest → Handled
quietly answer table = record { answer = answer; table = table; emitted = [] }

unfoldable pub handle : Jwt → ℕ → Option Text → ContestRequest → List Contest → Result Handled
unfolding guarded finish_contest create find_all update remove restore
handle jwt now bearer get_all_contests table = ok (quietly (contests_found (find_all table)) table)
handle jwt now bearer (create_contest row) table =
    guarded jwt now bearer staff_roles
      (create row table >>= λ (c, table'). ok (quietly (contests_found (c ∷ [])) table'))
handle jwt now bearer (finish id) table = guarded jwt now bearer staff_roles (
    let (contest, table', emitted) = finish_contest now id table in
    ok (record { answer = contest_or_null contest; table = table'; emitted = emitted }))
handle jwt now bearer (update_contest id merge) table =
    guarded jwt now bearer staff_roles
      (update id merge table >>= λ (c, table'). ok (quietly (contests_found (c ∷ [])) table'))
handle jwt now bearer (delete_contest id) table =
    guarded jwt now bearer staff_roles
      (remove now id table >>= λ table'. ok (quietly nothing table'))
handle jwt now bearer (restore_contest id) table =
    guarded jwt now bearer staff_roles
      (restore id table >>= λ (affected, table'). ok (quietly (rows_affected affected) table'))
