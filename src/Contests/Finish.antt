-- ===== src/Contests/Finish.antt =====
-- Finishing one contest, and again.
use codeweaknesses.Common.{
  ℕ, String, ◌≡◌, Bool, true, ◌&&◌, none, some, List, [], ◌∷◌, find, arith, is_some, if◌then◌else◌,
  ◌==◌, eq_iff, Option-cases, inl, inr,
}
use codeweaknesses.Entities.{Contest}
use codeweaknesses.Contests.{save, finish, is_there, finish_contest}

abbrev pub is_found : String → Contest → Bool
is_found id c = c.id == id && is_there c

find-is_found :
    (id : String) (table : List Contest) (c : Contest)
    → find (is_found id) table ≡ some c
    → is_found id c ≡ true
find-is_found id [] c h = cc
find-is_found id (r ∷ rows) c h = ground (arith, h, find-is_found id rows c)

find-save :
    (id : String) (now : ℕ) (c : Contest) (table : List Contest)
    → is_found id c ≡ true
    → find (is_found id) table ≡ some c
    → find (is_found id) (save (finish now c) table) ≡ some (finish now c)
unfolding save
find-save id now c [] there h = cc
find-save id now c (r ∷ rows) there h =
    ground (arith, eq_iff r.id c.id, eq_iff r.id id, eq_iff c.id id, find-save id now c rows there)

-- The end of a contest is announced only if it is there and not finished yet; after that it is
-- finished, and to finish it again, at whatever time, changes nothing and announces nothing.
finish_contest-once :
    (now later : ℕ) (id : String) (table : List Contest)
    → let (contest, after, emitted) = finish_contest now id table in
      (emitted ≡ (elim (find (is_found id) table) [
        | none ↦ []
        | some c ↦ if is_some c.finished_at then [] else id ∷ []
      ]))
      × (finish_contest later id after ≡ (contest, after, []))
unfolding finish_contest
finish_contest-once now later id table = elim (Option-cases (find (is_found id) table)) [
  | inl e ↦ ground (arith, e)
  | inr (c, e) ↦
      let there = find-is_found id table c e in
      ground (arith, e, there, eq_iff c.id id, find-save id now c table there e)
]
