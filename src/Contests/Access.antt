-- ===== src/Contests/Access.antt =====
-- Who may change contests.
use codeweaknesses.Common.{ℕ, ◌≡◌, ◌⊎◌, inl, inr, Option, List, [], arith}
use codeweaknesses.Common.Results.{ok}
use codeweaknesses.Entities.{Text, Contest}
use codeweaknesses.Auth.Tokens.{Jwt}
use codeweaknesses.Contests.Controller.{
  ContestRequest, get_all_contests, create_contest, finish, update_contest, delete_contest,
  restore_contest, Handled, handle,
}
use codeweaknesses.Problems.Access.{IsStaff, guarded-IsStaff}

-- A request to the controller of contests that is answered either has a valid token of an administrator
-- or an editor, or leaves the table as it is and announces the end of no contest.
pub handle-IsStaff :
    (jwt : Jwt) (now : ℕ) (bearer : Option Text) (request : ContestRequest) (table : List Contest)
    (handled : Handled)
    → handle jwt now bearer request table ≡ ok handled
    → IsStaff jwt now bearer ⊎ ((handled.table ≡ table) × (handled.emitted ≡ []))
unfolding handle
handle-IsStaff jwt now bearer get_all_contests table handled h = inr (ground arith)
handle-IsStaff jwt now bearer (create_contest row) table handled h =
    inl (guarded-IsStaff jwt now bearer _ _ h)
handle-IsStaff jwt now bearer (finish id) table handled h =
    inl (guarded-IsStaff jwt now bearer _ _ h)
handle-IsStaff jwt now bearer (update_contest id merge) table handled h =
    inl (guarded-IsStaff jwt now bearer _ _ h)
handle-IsStaff jwt now bearer (delete_contest id) table handled h =
    inl (guarded-IsStaff jwt now bearer _ _ h)
handle-IsStaff jwt now bearer (restore_contest id) table handled h =
    inl (guarded-IsStaff jwt now bearer _ _ h)
