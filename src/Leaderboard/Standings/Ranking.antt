-- ===== src/Leaderboard/Standings/Ranking.antt =====
-- The order of the standings and the ranks.
use mathlib.Core.List.{append_assoc}
use codeweaknesses.Common.{
  ℕ, suc, ◌+◌, ◌≤◌, ◌<◌, String, ◌≡◌, ◌≢◌, refl, sym, ap, ◌∙◌, ◌⊎◌, Bool, true, ◌&&◌, ◌||◌, Option,
  none, some, List, [], ◌∷◌, ◌++◌, map, Ordering, arith, ltb, eqb, if◌then◌else◌, length, count,
  All, All-append, length-append, count-append,
}
use codeweaknesses.Common.Sorting.{sort, IsOrdered, sort-IsOrdered}
use codeweaknesses.Common.Results.{ok}
use codeweaknesses.Entities.{Submission, Contest}
use codeweaknesses.Leaderboard.Standings.{
  LeaderboardEntry, LeaderboardPayload, compare_entries, starts_rank, assign_from, assign_ranks,
  group_submissions, build_entry, compute_standings,
}

-- More problems solved, or as many with less penalty.
abbrev pub beats : LeaderboardEntry → LeaderboardEntry → Bool
beats a b = ltb b.solved a.solved || (eqb a.solved b.solved && ltb a.total_penalty b.total_penalty)

-- The same comparison as a proposition, ties included.
abbrev pub AtLeast : LeaderboardEntry → LeaderboardEntry → Type 0
AtLeast a b = (b.solved < a.solved) ⊎ (a.solved ≡ b.solved) × (a.total_penalty ≤ b.total_penalty)

AtLeast-trans : (a b c : LeaderboardEntry) → AtLeast a b → AtLeast b c → AtLeast a c
AtLeast-trans a b c h k = ground arith

AtLeast-refl : (a : LeaderboardEntry) → AtLeast a a
AtLeast-refl a = ground arith

module _ (locale_compare : String → String → Ordering) where
  compare_entries_after :
      (a b : LeaderboardEntry) → compare_entries locale_compare a b ≡ Ordering.gt → AtLeast b a
  unfolding compare_entries
  compare_entries_after a b h = ground arith

  compare_entries_before :
      (a b : LeaderboardEntry) → compare_entries locale_compare a b ≢ Ordering.gt → AtLeast a b
  unfolding compare_entries
  compare_entries_before a b h = ground arith

  sorted-IsOrdered :
      (es : List LeaderboardEntry) → IsOrdered AtLeast (sort (compare_entries locale_compare) es)
  sorted-IsOrdered =
      sort-IsOrdered (compare_entries locale_compare) AtLeast AtLeast-trans compare_entries_after
        compare_entries_before

none_beats :
    (e : LeaderboardEntry) (es : List LeaderboardEntry)
    → All (AtLeast e) es
    → count (λ o. beats o e) es ≡ 0
none_beats e [] h = refl
none_beats e (o ∷ es) h = ground (arith, none_beats e es h.1)

All-beats :
    (p e : LeaderboardEntry) (es : List LeaderboardEntry)
    → beats p e ≡ true
    → All (λ o. AtLeast o p) es
    → count (λ o. beats o e) es ≡ length es
All-beats p e [] b h = refl
All-beats p e (o ∷ es) b h = ground (arith, All-beats p e es b h.1)

count-beats_same :
    (p e : LeaderboardEntry) (es : List LeaderboardEntry)
    → p.solved ≡ e.solved
    → p.total_penalty ≡ e.total_penalty
    → count (λ o. beats o e) es ≡ count (λ o. beats o p) es
count-beats_same p e [] s t = refl
count-beats_same p e (o ∷ es) s t = ground (arith, count-beats_same p e es s t)

All-AtLeast-trans :
    (p e : LeaderboardEntry) (es : List LeaderboardEntry)
    → AtLeast p e
    → All (λ o. AtLeast o p) es
    → All (λ o. AtLeast o e) es
All-AtLeast-trans p e [] h k = tt
All-AtLeast-trans p e (o ∷ es) h k = (AtLeast-trans o p e k.0 h, All-AtLeast-trans p e es h k.1)

-- The rank that the loop gives to `e`, from what holds of the entry before it.
next_rank :
    (current_rank : ℕ) (p e : LeaderboardEntry) (done : List LeaderboardEntry)
    → current_rank ≡ suc (count (λ o. beats o p) done)
    → All (λ o. AtLeast o p) done
    → AtLeast p e
    → (if starts_rank (some p) e then length done + 1 else current_rank)
      ≡ suc (count (λ o. beats o e) done)
next_rank current_rank p e done c h le =
    ground (arith, count-beats_same p e done, λ (b : beats p e ≡ true). All-beats p e done b h)

abbrev HasRank : List LeaderboardEntry → LeaderboardEntry → Type 0
HasRank es e = e.rank ≡ suc (count (λ o. beats o e) es)

rank_of_parts :
    (rank : ℕ) (e : LeaderboardEntry) (done es : List LeaderboardEntry)
    → rank ≡ suc (count (λ o. beats o e) done)
    → All (AtLeast e) es
    → rank ≡ suc (count (λ o. beats o e) (done ++ e ∷ es))
rank_of_parts rank e done es r h =
    rw (count-append (λ o. beats o e) done (e ∷ es)) (ground (arith, none_beats e es h))

rank_at_end :
    (rank : ℕ) (e : LeaderboardEntry) (done : List LeaderboardEntry)
    → rank ≡ suc (count (λ o. beats o e) done)
    → rank ≡ suc (count (λ o. beats o e) (done ++ e ∷ []))
rank_at_end rank e done r = rank_of_parts rank e done [] r tt

-- The loop from position `i`: `done` are the entries before it, `p` the last of them.
assign_from-HasRank :
    (i current_rank : ℕ) (p : LeaderboardEntry) (done es total : List LeaderboardEntry)
    → total ≡ done ++ es
    → i ≡ length done
    → current_rank ≡ suc (count (λ o. beats o p) done)
    → All (λ o. AtLeast o p) done
    → All (AtLeast p) es
    → IsOrdered AtLeast es
    → All (HasRank total) (assign_from i current_rank (some p) es)
unfolding assign_from
assign_from-HasRank i current_rank p done [] total t n c h k o = tt
assign_from-HasRank i current_rank p done (e ∷ es) total t n c h k o =
    let rank = if starts_rank (some p) e then i + 1 else current_rank in
    let r : rank ≡ suc (count (λ o. beats o e) done) =
      rw n (next_rank current_rank p e done c h k.0) in
    let before =
      All-append (λ o. AtLeast o e) done (e ∷ []) (All-AtLeast-trans p e done k.0 h)
        (AtLeast-refl e, tt) in
    (
      rw t (rank_of_parts rank e done es r o.0),
      assign_from-HasRank (i + 1) rank e (done ++ e ∷ []) es total
          (t ∙ sym (append_assoc done (e ∷ []) es)) (omega (arith, length-append done (e ∷ [])))
          (rank_at_end rank e done r) before o.0 o.1,
    )

assign_ranks-HasRank :
    (es : List LeaderboardEntry) → IsOrdered AtLeast es → All (HasRank es) (assign_ranks es)
unfolding assign_ranks assign_from
assign_ranks-HasRank [] o = tt
assign_ranks-HasRank (e ∷ es) o = (
  rank_of_parts 1 e [] es refl o.0,
  assign_from-HasRank 1 1 e (e ∷ []) es (e ∷ es) refl refl (rank_at_end 1 e [] refl)
      (AtLeast-refl e, tt) o.0 o.1,
)

-- Ranks say nothing of the scores, so they do not change who beats whom.
count-beats-assign_from :
    (x : LeaderboardEntry) (i current_rank : ℕ) (p : Option LeaderboardEntry)
    (es : List LeaderboardEntry)
    → count (λ o. beats o x) (assign_from i current_rank p es) ≡ count (λ o. beats o x) es
unfolding assign_from
count-beats-assign_from x i current_rank p [] = refl
count-beats-assign_from x i current_rank p (e ∷ es) =
    let rank = if starts_rank p e then i + 1 else current_rank in
    ap (λ n. (if beats e x then 1 else 0) + n) (count-beats-assign_from x (i + 1) rank (some e) es)

HasRank-mono :
    (xs ys es : List LeaderboardEntry)
    → ((x : LeaderboardEntry) → count (λ o. beats o x) ys ≡ count (λ o. beats o x) xs)
    → All (HasRank xs) es
    → All (HasRank ys) es
HasRank-mono xs ys [] same h = tt
HasRank-mono xs ys (e ∷ es) same h = (rw (same e) h.0, HasRank-mono xs ys es same h.1)

All-assign_from :
    (x : LeaderboardEntry) (i current_rank : ℕ) (p : Option LeaderboardEntry)
    (es : List LeaderboardEntry)
    → All (AtLeast x) es
    → All (AtLeast x) (assign_from i current_rank p es)
unfolding assign_from
All-assign_from x i current_rank p [] h = tt
All-assign_from x i current_rank p (e ∷ es) h =
    let rank = if starts_rank p e then i + 1 else current_rank in
    (h.0, All-assign_from x (i + 1) rank (some e) es h.1)

assign_from-IsOrdered :
    (i current_rank : ℕ) (p : Option LeaderboardEntry) (es : List LeaderboardEntry)
    → IsOrdered AtLeast es
    → IsOrdered AtLeast (assign_from i current_rank p es)
unfolding assign_from
assign_from-IsOrdered i current_rank p [] o = tt
assign_from-IsOrdered i current_rank p (e ∷ es) o =
    let rank = if starts_rank p e then i + 1 else current_rank in
    (
      All-assign_from e (i + 1) rank (some e) es o.0,
      assign_from-IsOrdered (i + 1) rank (some e) es o.1,
    )

ranked :
    (es : List LeaderboardEntry)
    → IsOrdered AtLeast es
    → IsOrdered AtLeast (assign_ranks es) × All (HasRank (assign_ranks es)) (assign_ranks es)
unfolding assign_ranks
ranked es o = (
  assign_from-IsOrdered 0 1 none es o,
  HasRank-mono es (assign_ranks es) (assign_ranks es) (λ x. count-beats-assign_from x 0 1 none es)
      (assign_ranks-HasRank es o),
)

-- Whenever standings are computed, the entries stand in the order of the scores, and the rank of
-- each is one more than the number of entries that beat it: ties share a rank, and the rank
-- after a tie skips the places that the tie takes.
pub compute_standings-ranked :
    (locale_compare : String → String → Ordering) (contest_id : String) (contest : Option Contest)
    (submissions : List Submission) (now : ℕ) (p : LeaderboardPayload)
    → compute_standings locale_compare contest_id contest submissions now ≡ ok p
    → IsOrdered AtLeast p.entries
      × All (λ e. e.rank ≡ suc (count (λ o. beats o e) p.entries)) p.entries
unfolding compute_standings
compute_standings-ranked locale_compare contest_id none submissions now p h = cc
compute_standings-ranked locale_compare contest_id (some contest) submissions now p h =
    let es =
      sort (compare_entries locale_compare)
        (map (build_entry contest.start_time submissions) (group_submissions [] submissions)) in
    let same : assign_ranks es ≡ p.entries = ground arith in
    rw (← same) (ranked es (sorted-IsOrdered locale_compare _))
