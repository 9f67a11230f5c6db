-- ===== src/Graphql/Standings/Order.antt =====
-- The order of the standings, and the ranks that number them.
use codeweaknesses.Common.{
  ℕ, ◌+◌, ◌≡◌, ◌≢◌, refl, Bool, true, false, ◌&&◌, ◌||◌, none, some, List, [], ◌∷◌, map, Ordering,
  arith, ltb, eqb, All, Option,
}
use codeweaknesses.Common.Sorting.{sort, IsOrdered, sort-IsOrdered}
use codeweaknesses.Common.Results.{ok}
use codeweaknesses.Entities.{Submission, Problem}
use codeweaknesses.Graphql.Standings.{
  LeaderboardEntryType, compare_rows, compare_times, number_from, contest_standings, group_rows,
  entry_of,
}

-- Whether a time is before another; no time is after all times.
abbrev pub is_earlier : Option ℕ → Option ℕ → Bool
is_earlier none b = false
is_earlier (some a) none = true
is_earlier (some a) (some b) = ltb a b

-- More problems solved; or as many with a higher score; or the same of both, and earlier.
abbrev pub is_better : LeaderboardEntryType → LeaderboardEntryType → Bool
is_better a b =
    ltb b.problems_solved a.problems_solved
    || (eqb b.problems_solved a.problems_solved
        && (ltb b.total_score a.total_score
            || (eqb b.total_score a.total_score
                && is_earlier a.last_accepted_at b.last_accepted_at)))

abbrev pub NotWorse : LeaderboardEntryType → LeaderboardEntryType → Type 0
NotWorse a b = is_better b a ≡ false

is_earlier_trans :
    (a b c : Option ℕ) → is_earlier b a ≡ false → is_earlier c b ≡ false → is_earlier c a ≡ false
is_earlier_trans none none none h k = refl
is_earlier_trans none none (some c) h k = cc
is_earlier_trans none (some b) c h k = cc
is_earlier_trans (some a) none none h k = refl
is_earlier_trans (some a) none (some c) h k = cc
is_earlier_trans (some a) (some b) none h k = refl
is_earlier_trans (some a) (some b) (some c) h k = ground arith

NotWorse-trans : (a b c : LeaderboardEntryType) → NotWorse a b → NotWorse b c → NotWorse a c
NotWorse-trans a b c h k =
    ground (arith, is_earlier_trans a.last_accepted_at b.last_accepted_at c.last_accepted_at)

compare_times-gt : (a b : Option ℕ) → compare_times a b ≡ Ordering.gt → is_earlier a b ≡ false
compare_times-gt none b h = refl
compare_times-gt (some a) none h = cc
compare_times-gt (some a) (some b) h = ground arith

compare_times-le : (a b : Option ℕ) → compare_times a b ≢ Ordering.gt → is_earlier b a ≡ false
compare_times-le none none h = refl
compare_times-le none (some b) h = absurd (h refl)
compare_times-le (some a) none h = refl
compare_times-le (some a) (some b) h = ground arith

compare_rows-gt : (a b : LeaderboardEntryType) → compare_rows a b ≡ Ordering.gt → NotWorse b a
unfolding compare_rows
compare_rows-gt a b h = ground (arith, compare_times-gt a.last_accepted_at b.last_accepted_at)

compare_rows-le : (a b : LeaderboardEntryType) → compare_rows a b ≢ Ordering.gt → NotWorse a b
unfolding compare_rows
compare_rows-le a b h = ground (arith, compare_times-le a.last_accepted_at b.last_accepted_at)

All-number_from :
    (e : LeaderboardEntryType) (r i : ℕ) (es : List LeaderboardEntryType)
    → All (NotWorse e) es
    → All (NotWorse (record e { rank = r })) (number_from i es)
unfolding number_from
All-number_from e r i [] h = tt
All-number_from e r i (x ∷ xs) h = (h.0, All-number_from e r (i + 1) xs h.1)

abbrev pub rank_of : LeaderboardEntryType → ℕ
rank_of e = e.rank

-- Consecutive numbers above `i`, one for each entry.
abbrev pub numbers_above : ℕ → List LeaderboardEntryType → List ℕ
numbers_above i [] = []
numbers_above i (e ∷ es) = (i + 1) ∷ numbers_above (i + 1) es

number_from-IsOrdered :
    (i : ℕ) (es : List LeaderboardEntryType)
    → IsOrdered NotWorse es
    → IsOrdered NotWorse (number_from i es)
      × (map rank_of (number_from i es) ≡ numbers_above i (number_from i es))
unfolding number_from
number_from-IsOrdered i [] h = (tt, refl)
number_from-IsOrdered i (e ∷ es) h =
    let (o, n) = number_from-IsOrdered (i + 1) es h.1 in
    ((All-number_from e (i + 1) (i + 1) es h.0, o), cc n)

-- The entries stand by problems solved, then by total score, then by the time of the last accepted
-- problem, entries without one last; no entry is better than one before it, and the ranks
-- number them from 1.
pub contest_standings-IsOrdered :
    (problems : List Problem) (submissions : List Submission) (es : List LeaderboardEntryType)
    → contest_standings (some problems) submissions ≡ ok es
    → IsOrdered NotWorse es × (map rank_of es ≡ numbers_above 0 es)
unfolding contest_standings
contest_standings-IsOrdered problems submissions es h =
    let sorted = sort compare_rows (map (entry_of problems) (group_rows [] submissions)) in
    let same : number_from 0 sorted ≡ es = ground arith in
    rw (← same) (
      number_from-IsOrdered 0 sorted
        (sort-IsOrdered compare_rows NotWorse NotWorse-trans compare_rows-gt compare_rows-le _))
