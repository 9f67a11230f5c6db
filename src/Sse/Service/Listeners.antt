-- ===== src/Sse/Service/Listeners.antt =====
-- The streams as a number of listeners for each submission.
use codeweaknesses.Common.{
  ap, ◌∙◌, ℕ, ◌+◌, ◌-◌, ◌<◌, String, ◌≡◌, refl, ◌↔◌, true, some, List, [], ◌∷◌, arith, ◌==◌, eq_iff,
  or_else, is_some, if◌then◌else◌,
}
use codeweaknesses.Common.Assoc.{lookup, lookup-insert, lookup-erase}
use codeweaknesses.Entities.{Text}
use codeweaknesses.Sse.Events.{Event}
use codeweaknesses.Sse.Service.{
  Sse, no_streams, get_or_create, push, complete_stream, error_stream, cleanup, Operation,
  subscribe, publish, finish, fail, disconnect, apply, run,
}

abbrev pub listeners : String → Sse → ℕ
listeners k s = or_else (lookup k s.ref_counts) 0

-- A stream is there exactly while a positive count is.
pub record IsCounted (s : Sse) : Type 0 where
  pub streamed : (k : String) → is_some (lookup k s.streams) ≡ is_some (lookup k s.ref_counts)
  pub positive : (k : String) (n : ℕ) → lookup k s.ref_counts ≡ some n → 0 < n

module _ {s : Sse} (c : IsCounted s) (k : String) where
  get_or_create-IsCounted : IsCounted (get_or_create k s).1
  unfolding get_or_create
  get_or_create-IsCounted = record {
    streamed = λ j. grind (arith, c.streamed j, c.streamed k, lookup-insert, eq_iff k j);
    positive = λ j n. grind (arith, c.positive j n, lookup-insert, eq_iff k j);
  }

  complete_stream-IsCounted : IsCounted (complete_stream k s)
  unfolding complete_stream
  complete_stream-IsCounted = record {
    streamed = λ j. grind (arith, c.streamed j, c.streamed k, lookup-erase, eq_iff k j);
    positive = λ j n. grind (arith, c.positive j n, lookup-erase, eq_iff k j);
  }

  cleanup-IsCounted : IsCounted (cleanup k s)
  unfolding cleanup
  cleanup-IsCounted = record {
    streamed =
        λ j. grind (arith, c.streamed j, c.streamed k, lookup-insert, lookup-erase, eq_iff k j);
    positive = λ j n. grind (arith, c.positive j n, lookup-insert, lookup-erase, eq_iff k j);
  }

  push-IsCounted : (event : Event) → IsCounted (push k event s)
  unfolding push
  push-IsCounted event = record {
    streamed = λ j. ground (arith, c.streamed j);
    positive = λ j n. ground (arith, c.positive j n);
  }

  error_stream-IsCounted : (message : Text) → IsCounted (error_stream k message s)
  unfolding error_stream
  error_stream-IsCounted message = record {
    streamed = λ j. grind (arith, c.streamed j, c.streamed k, lookup-erase, eq_iff k j);
    positive = λ j n. grind (arith, c.positive j n, lookup-erase, eq_iff k j);
  }

pub apply-IsCounted : (o : Operation) {s : Sse} → IsCounted s → IsCounted (apply o s)
unfolding apply
apply-IsCounted (subscribe k) c = get_or_create-IsCounted c k
apply-IsCounted (publish k event) c = push-IsCounted c k event
apply-IsCounted (finish k) c = complete_stream-IsCounted c k
apply-IsCounted (fail k message) c = error_stream-IsCounted c k message
apply-IsCounted (disconnect k) c = cleanup-IsCounted c k

-- The specification: how one operation changes the number of listeners of a submission.
abbrev pub listen : String → ℕ → Operation → ℕ
listen j n (subscribe k) = if k == j then n + 1 else n
listen j n (publish k event) = n
listen j n (finish k) = if k == j then 0 else n
listen j n (fail k message) = if k == j then 0 else n
listen j n (disconnect k) = if k == j then n - 1 else n

abbrev pub listen_all : String → ℕ → List Operation → ℕ
listen_all j n [] = n
listen_all j n (o ∷ os) = listen_all j (listen j n o) os

pub listeners-apply :
    (j : String) (o : Operation) {s : Sse}
    → IsCounted s
    → listeners j (apply o s) ≡ listen j (listeners j s) o
unfolding apply get_or_create push complete_stream error_stream cleanup
listeners-apply j (subscribe k) {s} c =
    grind (arith, c.streamed k, c.streamed j, lookup-insert, eq_iff k j)
listeners-apply j (publish k event) {s} c = ground arith
listeners-apply j (finish k) {s} c =
    grind (arith, c.streamed k, c.streamed j, lookup-erase, eq_iff k j)
listeners-apply j (fail k message) {s} c =
    grind (arith, c.streamed k, c.streamed j, lookup-erase, eq_iff k j)
listeners-apply j (disconnect k) {s} c =
    grind (arith, c.streamed k, c.streamed j, lookup-insert, lookup-erase, eq_iff k j)

pub no_streams-IsCounted : IsCounted no_streams
unfolding lookup
no_streams-IsCounted = record { streamed = λ k. refl; positive = λ k n h. cc }

pub run-listeners :
    (j : String) (os : List Operation) {s : Sse}
    → IsCounted s
    → (listeners j (run os s) ≡ listen_all j (listeners j s) os) × IsCounted (run os s)
unfolding run
run-listeners j [] c = (refl, c)
run-listeners j (o ∷ os) c =
    let (e, d) = run-listeners j os (apply-IsCounted o c) in
    (e ∙ ap (λ n. listen_all j n os) (listeners-apply j o c), d)

pub open_iff :
    (j : String) {s : Sse}
    → IsCounted s
    → (is_some (lookup j s.streams) ≡ true) ↔ (0 < listeners j s)
open_iff j {s} c = grind (arith, c.streamed j, c.positive j)

-- Whatever calls are made from the start, in whatever order, the stream of a submission is there
-- exactly while it has a listener, and the listeners are counted as specified: one more for each
-- subscription, one less (but never below none) for each disconnection, none after the stream
-- was finished or failed; calls for other submissions do not count.
pub run-streams :
    (j : String) (os : List Operation)
    → (listeners j (run os no_streams) ≡ listen_all j 0 os)
      × ((is_some (lookup j (run os no_streams).streams) ≡ true) ↔ (0 < listen_all j 0 os))
unfolding lookup
run-streams j os =
    let (e, c) = run-listeners j os no_streams-IsCounted in (e, rw e at (open_iff j c))
