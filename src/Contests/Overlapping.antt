-- ===== src/Contests/Overlapping.antt =====
-- Calls of `finishContest` and `finishExpiredContests` (src/contest/contest.service.ts) that overlap: each is suspended
-- where it awaits the database, and others go on meanwhile.
pub mod Announced
use codeweaknesses.Common.{
  ℕ, zero, suc, String, ◌≡◌, ◌≤◌, refl, Bool, true, false, ◌&&◌, ◌||◌, not, Option, none, some,
  List, [], ◌∷◌, ◌++◌, filter, find, any, count, arith, is_some, if◌then◌else◌, ◌==◌, eq_iff,
  Option-cases, Bool-cases, inl, inr,
}
use codeweaknesses.Entities.{Contest}
use codeweaknesses.Contests.{save, finish, is_there, is_expired}

-- A call that awaits that the contest is saved, or goes on after this; then come the contests that
-- the loop has left, none for `finishContest`.
pub data Call : Type 0 where
  saving saved : ℕ → Contest → List Contest → Call

pub record Board : Type 0 where
  pub contests : List Contest
  pub pending : List Call
  pub announced : List String

-- The database answers the query of a request, or of the timer; or a call that awaits goes on.
pub data Move : Type 0 where
  request : ℕ → String → Move
  tick : ℕ → Move
  goes_on : ℕ → Move

abbrev pub next_round : ℕ → List Contest → List Call
next_round now [] = []
next_round now (c ∷ cs) = saving now c cs ∷ []

abbrev pub pick : ℕ → List Call → Option (Call × List Call)
pick k [] = none
pick zero (c ∷ cs) = some (c, cs)
pick (suc k) (c ∷ cs) =
    let rest = pick k cs in elim rest [ none ↦ none | some (d, ds) ↦ some (d, c ∷ ds) ]

unfoldable pub resume : Call → List Call → Board → Board
resume (saving now c cs) others b = record b {
  contests = save (finish now c) b.contests;
  pending = saved now c cs ∷ others;
}
resume (saved now c cs) others b = record b {
  pending = next_round now cs ++ others;
  announced = b.announced ++ c.id ∷ [];
}

unfoldable pub move : Move → Board → Board
unfolding resume
move (request now id) b = elim (find (λ c. c.id == id && is_there c) b.contests) [
  | none ↦ b
  | some contest ↦
      if is_some contest.finished_at
      then b
      else record b { pending = saving now contest [] ∷ b.pending }
]
move (tick now) b = record b {
  pending = next_round now (filter (is_expired now) b.contests) ++ b.pending;
}
move (goes_on k) b = elim (pick k b.pending) [
  | none ↦ b
  | some (call, others) ↦ resume call others b
]

unfoldable pub move_all : List Move → Board → Board
move_all [] b = b
move_all (m ∷ ms) b = move_all ms (move m b)

module _ (id : String) where
  abbrev pub named : Contest → Bool
  named c = c.id == id

  abbrev pub is_finished : Contest → Bool
  is_finished c = named c && is_some c.finished_at

  -- A call that will save the contest, and one that has saved it and will announce its end.
  abbrev pub waits : Call → Bool
  waits (saving now c cs) = any named (c ∷ cs)
  waits (saved now c cs) = any named cs

  abbrev pub tells : Call → Bool
  tells (saving now c cs) = false
  tells (saved now c cs) = named c

  abbrev pub is_announced : Board → Bool
  is_announced b = any (λ x. x == id) b.announced

  save-any :
      (now : ℕ) (c : Contest) (rows : List Contest)
      → (any is_finished (save (finish now c) rows)
          ≡ (if named c then any named rows else any is_finished rows))
        × (any named (save (finish now c) rows) ≡ any named rows)
        × (count named (save (finish now c) rows) ≡ count named rows)
  unfolding save
  save-any now c [] = ground arith
  save-any now c (r ∷ rows) =
      ground (arith, save-any now c rows, eq_iff r.id c.id, eq_iff c.id id, eq_iff r.id id)

  none_named : (rows : List Contest) → count named rows ≤ 0 → any named rows ≡ false
  none_named [] h = refl
  none_named (r ∷ rows) h = ground (arith, none_named rows)

  finished-named : (rows : List Contest) → any is_finished rows ≡ true → any named rows ≡ true
  finished-named [] h = cc
  finished-named (r ∷ rows) h = ground (arith, finished-named rows)

  -- What a request finds is a row, and none but the finished one if there is only one.
  find-named :
      (p : Contest → Bool) (rows : List Contest) (c : Contest)
      → find p rows ≡ some c
      → named c ≡ true
      → any named rows ≡ true
  find-named p [] c h n = cc
  find-named p (r ∷ rows) c h n = ground (arith, find-named p rows c)

  find-finished :
      (p : Contest → Bool) (rows : List Contest) (c : Contest)
      → count named rows ≤ 1
      → any is_finished rows ≡ true
      → find p rows ≡ some c
      → named c ≡ true
      → is_some c.finished_at ≡ true
  find-finished p [] c u f h n = cc
  find-finished p (r ∷ rows) c u f h n =
      ground
        (arith, find-finished p rows c, find-named p rows c, none_named rows, finished-named rows)

  expired-named :
      (now : ℕ) (rows : List Contest)
      → any named (filter (is_expired now) rows) ≡ true
      → any named rows ≡ true
  expired-named now [] h = cc
  expired-named now (r ∷ rows) h = ground (arith, expired-named now rows)

  expired-open :
      (now : ℕ) (rows : List Contest)
      → count named rows ≤ 1
      → any is_finished rows ≡ true
      → any named (filter (is_expired now) rows) ≡ false
  expired-open now [] u f = cc
  expired-open now (r ∷ rows) u f = elim (Bool-cases (any named (filter (is_expired now) rows))) [
    | inl e ↦ ground (
      arith,
      e,
      expired-open now rows,
      expired-named now rows,
      none_named rows,
      finished-named rows,
    )
    | inr e ↦ ground (
      arith,
      e,
      expired-open now rows,
      expired-named now rows,
      none_named rows,
      finished-named rows,
    )
  ]
