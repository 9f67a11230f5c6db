-- ===== src/Contests/Overlapping/Announced.antt =====
-- Which ends of contests are announced, however the calls overlap.
use codeweaknesses.Common.{
  ap, sym, ◌∙◌, ℕ, zero, suc, String, ◌≡◌, ◌≤◌, refl, Bool, true, false, ◌&&◌, ◌||◌, some, List, [],
  ◌∷◌, ◌++◌, filter, find, any, count, arith, is_some, ◌==◌, Option-cases, Bool-cases, inl, inr,
}
use mathlib.Core.List.{append-nil, append_assoc}
use codeweaknesses.Entities.{Contest}
use codeweaknesses.Contests.{save, finish, is_there, is_expired, finish_contest, finish_each}
use codeweaknesses.Contests.Overlapping.{
  Call, saving, saved, Board, Move, request, tick, goes_on, next_round, pick, resume, move,
  move_all, named, is_finished, waits, tells, is_announced, save-any, find-named, find-finished,
  expired-named, expired-open,
}

any-pick :
    (p : Call → Bool) (k : ℕ) (cs : List Call) (d : Call) (ds : List Call)
    → pick k cs ≡ some (d, ds)
    → any p cs ≡ (p d || any p ds)
any-pick p k [] d ds h = cc
any-pick p zero (c ∷ cs) d ds h = ground (arith, h)
any-pick p (suc k) (c ∷ cs) d ds h = elim (Option-cases (pick k cs)) [
  | inl e ↦ absurd (ground (arith, e, h))
  | inr ((d', ds'), e) ↦ ground (arith, e, h, any-pick p k cs d' ds' e)
]

any-append :
    {A : Type 0} (p : A → Bool) (xs ys : List A) → any p (xs ++ ys) ≡ (any p xs || any p ys)
any-append p [] ys = refl
any-append p (x ∷ xs) ys = ground (arith, any-append p xs ys)

module _ (id : String) where
  any-next_round :
      (now : ℕ) (cs : List Contest)
      → (any (waits id) (next_round now cs) ≡ any (named id) cs)
        × (any (tells id) (next_round now cs) ≡ false)
  any-next_round now [] = (refl, refl)
  any-next_round now (c ∷ cs) = ground arith

  -- `at_first` says whether the contest was finished at the beginning.
  record IsFair (at_first : Bool) (b : Board) : Type 0 where
    pub ends :
        any (is_finished id) b.contests
        ≡ (at_first || (is_announced id b || any (tells id) b.pending))
    pub known : any (waits id) b.pending ≡ true → any (named id) b.contests ≡ true
    pub apart :
        at_first ≡ true
        → (is_announced id b || (any (tells id) b.pending || any (waits id) b.pending)) ≡ false
    pub one : count (named id) b.contests ≤ 1

  resume-IsFair :
      (f : Bool) (call : Call) (others : List Call) (b : Board)
      → IsFair f (record b { pending = call ∷ others })
      → IsFair f (resume call others b)
  unfolding resume
  resume-IsFair f (saving now c cs) others b v =
      let s = save-any id now c b.contests in
      record {
        ends = ground (arith, s, v.ends, v.known, v.apart);
        known = λ h. ground (arith, s, v.known, h);
        apart = λ h. ground (arith, s, v.apart, h);
        one = omega (arith, s.2, v.one);
      }
  resume-IsFair f (saved now c cs) others b v =
      let n = any-next_round now cs in
      let w = any-append (waits id) (next_round now cs) others in
      let t = any-append (tells id) (next_round now cs) others in
      let a = any-append (λ x. x == id) b.announced (c.id ∷ []) in
      record {
        ends = ground (arith, n, t, a, v.ends);
        known = λ h. ground (arith, n, w, v.known, h);
        apart = λ h. ground (arith, n, w, t, a, v.apart, h);
        one = v.one;
      }

  move-IsFair : (f : Bool) (m : Move) (b : Board) → IsFair f b → IsFair f (move m b)
  unfolding move
  move-IsFair f (request now k) b v =
      elim (Option-cases (find (λ c. c.id == k && is_there c) b.contests)) [
        | inl e ↦ rw (move, e) v
        | inr (c, e) ↦ elim (Bool-cases (is_some c.finished_at)) [
          | inl done ↦ rw (move, e, done) v
          | inr going ↦
              let there = find-named id (λ c. c.id == k && is_there c) b.contests c e in
              let finished = find-finished id (λ c. c.id == k && is_there c) b.contests c v.one in
              rw (move, e, going)
                (record {
                  ends = v.ends;
                  known = λ h. ground (arith, there, v.known, h);
                  apart = λ h. ground (arith, finished, going, e, v.ends, v.apart, h);
                  one = v.one;
                })
        ]
      ]
  move-IsFair f (tick now) b v =
      let due = filter (is_expired now) b.contests in
      let n = any-next_round now due in
      let w = any-append (waits id) (next_round now due) b.pending in
      let t = any-append (tells id) (next_round now due) b.pending in
      record {
        ends = ground (arith, n, t, v.ends);
        known = λ h. ground (arith, n, w, v.known, h, expired-named id now b.contests);
        apart =
            λ h. ground (arith, n, w, t, v.ends, v.apart, h, expired-open id now b.contests v.one);
        one = v.one;
      }
  move-IsFair f (goes_on k) b v = elim (Option-cases (pick k b.pending)) [
    | inl e ↦ rw (move, e) v
    | inr ((call, others), e) ↦
        let w = any-pick (waits id) k b.pending call others e in
        let t = any-pick (tells id) k b.pending call others e in
        rw (move, e)
          (resume-IsFair f call others b (record {
            ends = ground (arith, t, v.ends);
            known = λ h. ground (arith, w, v.known, h);
            apart = λ h. ground (arith, w, t, v.apart, h);
            one = v.one;
          }))
  ]

  move_all-IsFair : (f : Bool) (ms : List Move) (b : Board) → IsFair f b → IsFair f (move_all ms b)
  unfolding move_all
  move_all-IsFair f [] b v = v
  move_all-IsFair f (m ∷ ms) b v = move_all-IsFair f ms (move m b) (move-IsFair f m b v)

  -- Whatever requests and ticks there are, in whatever order they and the calls that await the database
  -- go on: a contest that has one row at most is finished exactly if it was finished at the beginning
  -- or its end was announced or is about to be, by a call that has saved it; and nothing is or will be
  -- announced of a contest that was finished at the beginning. So when no call is pending any more,
  -- the contests that have become finished are those whose end was announced, once or more often.
  pub move_all-announces :
      (moves : List Move) (contests : List Contest)
      → count (named id) contests ≤ 1
      → let b = move_all moves (record { contests = contests; pending = []; announced = [] }) in
        let told = is_announced id b || any (tells id) b.pending in
        (any (is_finished id) b.contests ≡ (any (is_finished id) contests || told))
        × ((any (is_finished id) contests && (told || any (waits id) b.pending)) ≡ false)
  move_all-announces moves contests one =
      let f = any (is_finished id) contests in
      let v =
        move_all-IsFair f moves (record { contests = contests; pending = []; announced = [] })
          (record {
            ends = ground arith;
            known = λ h. absurd (ground (arith, h));
            apart = λ h. refl;
            one = one;
          }) in
      (v.ends, ground (arith, v.apart))

-- A request with nothing in between does what `finish_contest` does.
finish_contest-alone :
    (now : ℕ) (id : String) (contests : List Contest)
    → let (contest, after, emitted) = finish_contest now id contests in
      move_all
        (request now id ∷ goes_on 0 ∷ goes_on 0 ∷ [])
        (record { contests = contests; pending = []; announced = [] })
      ≡ record { contests = after; pending = []; announced = emitted }
unfolding move_all move resume finish_contest
finish_contest-alone now id contests = ground arith

-- A round with nothing in between does what `finish_each` does.
abbrev go_on : List Contest → List Move
go_on [] = []
go_on (c ∷ cs) = goes_on 0 ∷ goes_on 0 ∷ go_on cs

finish_each-alone :
    (now : ℕ) (cs contests : List Contest) (announced : List String)
    → let (after, emitted) = finish_each now contests cs in
      move_all
        (go_on cs)
        (record { contests = contests; pending = next_round now cs; announced = announced })
      ≡ record { contests = after; pending = []; announced = announced ++ emitted }
unfolding move_all move resume finish_each
finish_each-alone now [] contests announced =
    ap (λ a. record { contests = contests; pending = []; announced = a })
      (sym (append-nil announced))
finish_each-alone now (c ∷ cs) contests announced =
    let (after, emitted) = finish_each now (save (finish now c) contests) cs in
    let rows = save (finish now c) contests in
    let told = announced ++ c.id ∷ [] in
    ap (λ ps. move_all (go_on cs) (record { contests = rows; pending = ps; announced = told }))
      (append-nil (next_round now cs))
    ∙ finish_each-alone now cs rows told
    ∙ ap (λ a. record { contests = after; pending = []; announced = a })
        (append_assoc announced (c.id ∷ []) emitted)
