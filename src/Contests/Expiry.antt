-- ===== src/Contests/Expiry.antt =====
-- What is announced when contests expire, and that it is not announced again.
use mathlib.Core.Path.{subst}
use codeweaknesses.Common.{
  sym, ℕ, String, ◌≡◌, refl, true, List, [], ◌∷◌, map, filter, any, All, arith, if◌then◌else◌, ◌==◌,
  eq_iff, eq_refl, Bool-cases, inl, inr,
}
use codeweaknesses.Entities.{Contest}
use codeweaknesses.Contests.{save, finish, is_expired, finish_each, finish_expired_contests}

-- An expired row is one of those that are still to be finished, by its identifier.
abbrev IsToFinish : ℕ → List Contest → Contest → Type 0
IsToFinish now cs r = is_expired now r ≡ true → any (λ c. c.id == r.id) cs ≡ true

IsToFinish-weaken :
    (now : ℕ) (c : Contest) (cs rows : List Contest)
    → All (IsToFinish now cs) rows
    → All (IsToFinish now (c ∷ cs)) rows
IsToFinish-weaken now c cs [] h = tt
IsToFinish-weaken now c cs (r ∷ rows) h =
    (λ e. ground (arith, h.0 e), IsToFinish-weaken now c cs rows h.1)

cons-IsToFinish :
    (now : ℕ) (r : Contest) (later cs rows : List Contest)
    → cs ≡ (if is_expired now r then r ∷ later else later)
    → All (IsToFinish now later) rows
    → All (IsToFinish now cs) (r ∷ rows)
cons-IsToFinish now r later cs rows h hs = elim (Bool-cases (is_expired now r)) [
  | inl e ↦
      let q : cs ≡ r ∷ later = ground (arith, h, e) in
      subst (λ cs. All (IsToFinish now cs) (r ∷ rows)) (sym q)
        (λ x. ground (arith, eq_refl r.id), IsToFinish-weaken now r later rows hs)
  | inr e ↦
      let q : cs ≡ later = ground (arith, h, e) in
      subst (λ cs. All (IsToFinish now cs) (r ∷ rows)) (sym q)
        (λ x. absurd (ground (arith, x, e)), hs)
]

filter-IsToFinish :
    (now : ℕ) (table : List Contest) → All (IsToFinish now (filter (is_expired now) table)) table
filter-IsToFinish now [] = tt
filter-IsToFinish now (r ∷ rows) =
    cons-IsToFinish now r (filter (is_expired now) rows) (filter (is_expired now) (r ∷ rows)) rows
      refl (filter-IsToFinish now rows)

save-IsToFinish :
    (now : ℕ) (c : Contest) (cs rows : List Contest)
    → All (IsToFinish now (c ∷ cs)) rows
    → All (IsToFinish now cs) (save (finish now c) rows)
unfolding save
save-IsToFinish now c cs [] h = tt
save-IsToFinish now c cs (r ∷ rows) h =
    (ground (arith, h.0, eq_iff r.id c.id, eq_iff c.id r.id), save-IsToFinish now c cs rows h.1)

none_expired :
    (now : ℕ) (rows : List Contest)
    → All (IsToFinish now []) rows
    → filter (is_expired now) rows ≡ []
none_expired now [] h = refl
none_expired now (r ∷ rows) h = ground (arith, h.0, none_expired now rows h.1)

abbrev pub id_of : Contest → String
id_of c = c.id

finish_each_lem :
    (now : ℕ) (cs table : List Contest)
    → All (IsToFinish now cs) table
    → (filter (is_expired now) (finish_each now table cs).0 ≡ [])
      × ((finish_each now table cs).1 ≡ map id_of cs)
unfolding finish_each
finish_each_lem now [] table h = (none_expired now table h, refl)
finish_each_lem now (c ∷ cs) table h =
    let (e, m) =
      finish_each_lem now cs (save (finish now c) table) (save-IsToFinish now c cs table h) in
    (e, cc m)

-- One round announces the contests that have ended and are neither finished nor deleted, in the order
-- of the table, and finishes them all: a second round at the same time finds none and announces
-- nothing.
pub finish_expired_contests-once :
    (now : ℕ) (table : List Contest)
    → let (after, emitted) = finish_expired_contests now table in
      (emitted ≡ map id_of (filter (is_expired now) table))
      × (filter (is_expired now) after ≡ [])
      × (finish_expired_contests now after ≡ (after, []))
unfolding finish_expired_contests
finish_expired_contests-once now table =
    let (e, m) =
      finish_each_lem now (filter (is_expired now) table) table (filter-IsToFinish now table) in
    (m, e, rw e refl)
