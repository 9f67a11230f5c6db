-- ===== src/Routes/Guarding.antt =====
-- What requests can do and see without a token of the staff.
use codeweaknesses.Common.{
  ◌≤◌, ◌+◌, sum-append, ℕ, String, false, true, ◌≡◌, ◌⊎◌, inl, inr, refl, Bool, Option, List, [],
  ◌∷◌, sum, length, arith, ◌∙◌, ap,
}
use codeweaknesses.Common.Results.{Result-cases}
use codeweaknesses.Auth.Access.{IsAdmin, handle-IsAdmin, register-length}
use codeweaknesses.Auth.Tokens.{Jwt}
use codeweaknesses.Auth.Users.{Bcrypt, register, log_in}
use codeweaknesses.Contests.Access.{handle-IsStaff}
use codeweaknesses.Problems.Access.{IsStaff, hidden_in, handle-hidden_in}
use codeweaknesses.Problems.{create, OrderBy}
use codeweaknesses.Routes.{
  Text, Tables, Request, of_registration, of_login, from_registration, from_login, of_users,
  of_problems, of_contests, Answer, from_users, from_problems, from_contests, Arrival, handle,
  settled, serve,
}

-- How many hidden test cases an answer shows, and how many contests it says are finished.
abbrev pub hidden_shown : Answer → ℕ
hidden_shown (from_registration token) = 0
hidden_shown (from_login token) = 0
hidden_shown (from_users us) = 0
hidden_shown (from_problems answer) = hidden_in answer
hidden_shown (from_contests answer emitted) = 0

abbrev pub finishes : Answer → ℕ
finishes (from_registration token) = 0
finishes (from_login token) = 0
finishes (from_users us) = 0
finishes (from_problems answer) = 0
finishes (from_contests answer emitted) = length emitted

-- How many registrations are answered.
abbrev pub registers : Answer → ℕ
registers (from_registration token) = 1
registers _ = 0

-- Some request has a valid token of an administrator or an editor.
abbrev pub HasStaff : Jwt → List Arrival → Type 0
HasStaff jwt [] = false ≡ true
HasStaff jwt (a ∷ later) = IsStaff jwt a.now a.bearer ⊎ HasStaff jwt later

-- No table of contests changed, no user was added but by registering, nothing was shown or announced.
pub record IsHarmless (answers : List Answer) (before after : Tables) : Type 0 where
  pub contest_tables_kept : after.contest_tables ≡ before.contest_tables
  pub users_kept : length before.users ≤ length after.users
  pub users_registered : length after.users ≤ length before.users + sum registers answers
  pub nothing_hidden : sum hidden_shown answers ≡ 0
  pub nothing_finished : sum finishes answers ≡ 0

IsAdmin-IsStaff :
    (jwt : Jwt) (now : ℕ) (bearer : Option Text) → IsAdmin jwt now bearer → IsStaff jwt now bearer
IsAdmin-IsStaff jwt now bearer a = record {
  who = a.who;
  known = a.known;
  is_staff = inl a.is_admin;
}

unchanged : (t : Tables) → IsHarmless [] t t
unchanged t = record {
  contest_tables_kept = refl;
  users_kept = omega arith;
  users_registered = omega arith;
  nothing_hidden = refl;
  nothing_finished = refl;
}

module _ (bcrypt : Bcrypt) (jwt : Jwt) (by : OrderBy) (is_uuid : String → Bool) where
  handle-guards :
      (a : Arrival) (request : Request) (t : Tables)
      → IsStaff jwt a.now a.bearer
        ⊎ (let (answers, after) = settled (handle bcrypt jwt by is_uuid a request t) t in
            IsHarmless answers t after)
  unfolding handle register create
  handle-guards a (of_registration dto) t =
      elim (Result-cases (register bcrypt jwt a.now a.salt a.new_id dto t.users)) [
        | inr (e', e) ↦ inr (rw e (unchanged t))
        | inl ((token, users), e) ↦
            let (least, most) =
              register-length bcrypt jwt a.now a.salt a.new_id dto t.users (token, users) e in
            inr (
              rw e (record {
                contest_tables_kept = refl;
                users_kept = least;
                users_registered = omega (arith, most);
                nothing_hidden = refl;
                nothing_finished = refl;
              }))
      ]
  handle-guards a (of_login dto) t = elim (Result-cases (log_in bcrypt jwt a.now dto t.users)) [
    | inr (e', e) ↦ inr (rw e (unchanged t))
    | inl (token, e) ↦ inr (
        rw e (record {
          contest_tables_kept = refl;
          users_kept = omega arith;
          users_registered = omega arith;
          nothing_hidden = refl;
          nothing_finished = refl;
        }))
  ]
  handle-guards a (of_users request) t =
      elim (Result-cases (
        codeweaknesses.Auth.Users.handle bcrypt jwt a.now a.salt a.new_id a.bearer request
          t.users)) [
            | inr (e', e) ↦ inr (rw e (unchanged t))
            | inl ((answer, users), e) ↦
                elim (handle-IsAdmin bcrypt jwt a.now a.salt a.new_id a.bearer request t.users
                  answer users e) [
                    | inl admin ↦ inl (IsAdmin-IsStaff jwt a.now a.bearer admin)
                    | inr kept ↦ inr (
                        rw e (record {
                          contest_tables_kept = refl;
                          users_kept = omega (arith, kept);
                          users_registered = omega (arith, kept);
                          nothing_hidden = refl;
                          nothing_finished = refl;
                        }))
                  ]
          ]
  handle-guards a (of_problems request) t =
      elim (Result-cases (
        codeweaknesses.Problems.Controller.handle jwt by is_uuid a.now a.new_id a.bearer request
          t.contest_tables)) [
            | inr (e', e) ↦ inr (rw e (unchanged t))
            | inl ((answer, store), e) ↦
                elim (handle-hidden_in jwt by is_uuid a.now a.new_id a.bearer request
                  t.contest_tables store answer e) [
                    | inl staff ↦ inl staff
                    | inr (kept, hidden) ↦ inr (
                        rw e (record {
                          contest_tables_kept = kept;
                          users_kept = omega arith;
                          users_registered = omega arith;
                          nothing_hidden = omega (arith, hidden);
                          nothing_finished = refl;
                        }))
                  ]
          ]
  handle-guards a (of_contests request) t =
      elim (Result-cases (
        codeweaknesses.Contests.Controller.handle jwt a.now a.bearer request
          t.contest_tables.contests)) [
            | inr (e', e) ↦ inr (rw e (unchanged t))
            | inl (handled, e) ↦
                elim (handle-IsStaff jwt a.now a.bearer request t.contest_tables.contests handled
                  e) [
                    | inl staff ↦ inl staff
                    | inr (kept, quiet) ↦ inr (
                        rw e (record {
                          contest_tables_kept =
                              ap (λ cs. record (t.contest_tables) { contests = cs }) kept;
                          users_kept = omega arith;
                          users_registered = omega arith;
                          nothing_hidden = refl;
                          nothing_finished = ground (arith, quiet);
                        }))
                  ]
          ]

  -- Whatever requests are made to register and to log in, and of the routes of users, problems and
  -- contests, in whatever order: unless one of them has a valid token of an administrator or an
  -- editor, the tables of contests, problems and test cases stay as they are, the users' rows are not fewer
  -- than before and at most as many more as registrations were answered, no answer shows a hidden test
  -- case, and the end of no contest is announced.
  pub serve-guards :
      (arrivals : List Arrival) (t : Tables)
      → HasStaff jwt arrivals
        ⊎ (let (answers, after) = serve bcrypt jwt by is_uuid arrivals t in
            IsHarmless answers t after)
  unfolding serve
  serve-guards [] t = inr (unchanged t)
  serve-guards (a ∷ later) t =
      let (answers, after) = settled (handle bcrypt jwt by is_uuid a a.request t) t in
      elim (handle-guards a a.request t) [
        | inl staff ↦ inl (inl staff)
        | inr now ↦ elim (serve-guards later after) [
          | inl staff ↦ inl (inr staff)
          | inr rest ↦ inr (record {
            contest_tables_kept = rest.contest_tables_kept ∙ now.contest_tables_kept;
            users_kept = omega (arith, rest.users_kept, now.users_kept);
            users_registered = omega (
              arith,
              sum-append registers answers (serve bcrypt jwt by is_uuid later after).0,
              rest.users_registered,
              now.users_registered,
            );
            nothing_hidden = omega (
              arith,
              sum-append hidden_shown answers (serve bcrypt jwt by is_uuid later after).0,
              now.nothing_hidden,
              rest.nothing_hidden,
            );
            nothing_finished = omega (
              arith,
              sum-append finishes answers (serve bcrypt jwt by is_uuid later after).0,
              now.nothing_finished,
              rest.nothing_finished,
            );
          })
        ]
      ]
