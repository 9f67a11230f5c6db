-- ===== src/Routes.antt =====
-- The routes of registration, users, problems and contests on their tables: src/auth/auth.controller.ts,
-- src/user/user.controller.ts, src/problem/problem.controller.ts and src/contest/contest.controller.ts. Requests are answered one after
-- the other; one that fails leaves all tables as they are.
mod Examples
pub mod Guarding
use codeweaknesses.Common.{ℕ, String, Bool, Option, List, [], ◌∷◌, ◌++◌}
use codeweaknesses.Common.Results.{Result, ok, err, HttpError, ◌>>=◌}
use codeweaknesses.Auth.Tokens.{Jwt}
use codeweaknesses.Auth.Users.{Bcrypt, UserRequest, LoginDto, register, log_in}
use codeweaknesses.Contests.Controller.{ContestRequest, ContestAnswer}
use codeweaknesses.Entities.{Text, User}
use codeweaknesses.Problems.{OrderBy, ProblemStore}
use codeweaknesses.Problems.Controller.{ProblemRequest, ProblemAnswer}

pub record Tables : Type 0 where
  pub users : List User
  pub contest_tables : ProblemStore

pub data Request : Type 0 where
  of_registration of_login : LoginDto → Request
  of_users : UserRequest → Request
  of_problems : ProblemRequest → Request
  of_contests : ContestRequest → Request

pub data Answer : Type 0 where
  from_registration from_login : Text → Answer
  from_users : List User → Answer
  from_problems : ProblemAnswer → Answer
  from_contests : ContestAnswer → List String → Answer

-- A request with its token, and what the clock, bcrypt and the database give to it.
pub record Arrival : Type 0 where
  pub request : Request
  pub bearer : Option Text
  pub now : ℕ
  pub salt : String
  pub new_id : String

-- The tables after a request, and what is answered.
abbrev pub settled : Result (Answer × Tables) → Tables → List Answer × Tables
settled (ok (answer, after)) t = (answer ∷ [], after)
settled (err e) t = ([], t)

module _ (bcrypt : Bcrypt) (jwt : Jwt) (by : OrderBy) (is_uuid : String → Bool) where
  unfoldable pub handle : Arrival → Request → Tables → Result (Answer × Tables)
  unfolding codeweaknesses.Auth.Users.handle codeweaknesses.Problems.Controller.handle
      codeweaknesses.Contests.Controller.handle register log_in
  handle a (of_registration dto) t =
      register bcrypt jwt a.now a.salt a.new_id dto t.users >>= λ (token, users).
      ok (from_registration token, record t { users = users })
  handle a (of_login dto) t =
      log_in bcrypt jwt a.now dto t.users >>= λ token. ok (from_login token, t)
  handle a (of_users request) t =
      codeweaknesses.Auth.Users.handle bcrypt jwt a.now a.salt a.new_id a.bearer request t.users
      >>= λ (answer, users). ok (from_users answer, record t { users = users })
  handle a (of_problems request) t =
      codeweaknesses.Problems.Controller.handle jwt by is_uuid a.now a.new_id a.bearer request
        t.contest_tables
      >>= λ (answer, store). ok (from_problems answer, record t { contest_tables = store })
  handle a (of_contests request) t =
      codeweaknesses.Contests.Controller.handle jwt a.now a.bearer request t.contest_tables.contests
      >>= λ h. ok (
        from_contests h.answer h.emitted,
        record t { contest_tables = record (t.contest_tables) { contests = h.table } },
      )

  unfoldable pub serve : List Arrival → Tables → List Answer × Tables
  unfolding handle
  serve [] t = ([], t)
  serve (a ∷ later) t =
      let (answer, after) = settled (handle a a.request t) t in
      let (answers, last) = serve later after in (answer ++ answers, last)
