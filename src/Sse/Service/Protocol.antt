-- ===== src/Sse/Service/Protocol.antt =====
-- The order of the calls on each subject.
use codeweaknesses.Common.{
  ◌-◌, leb, Bool-cases, inr, inl, Option-cases, ℕ, ◌≤◌, ◌<◌, String, ◌≡◌, refl, Bool, true, false,
  ◌||◌, some, List, [], ◌∷◌, arith, eqb, eq_iff, if◌then◌else◌,
}
use codeweaknesses.Common.Assoc.{insert, lookup, lookup-insert, lookup-erase}
use codeweaknesses.Entities.{Text}
use codeweaknesses.Sse.Events.{Event}
use codeweaknesses.Sse.Service.{
  Sse, Signal, next, complete, no_streams, get_or_create, push, complete_stream, error_stream,
  cleanup, Operation, subscribe, publish, finish, fail, disconnect, apply, run,
}

abbrev pub is_complete : Signal → Bool
is_complete complete = true
is_complete (next event) = false

-- Whether a subject was completed; the newest signal comes first.
abbrev pub is_completed : ℕ → List (ℕ × Signal) → Bool
is_completed n [] = false
is_completed n ((m, x) ∷ older) = (if eqb m n then is_complete x else false) || is_completed n older

-- No signal follows the completion of its subject.
abbrev pub IsProtocol : List (ℕ × Signal) → Type 0
IsProtocol [] = Unit
IsProtocol ((n, x) ∷ older) = (is_completed n older ≡ false) × IsProtocol older

pub record IsLive (s : Sse) : Type 0 where
  pub open_subject :
      (k : String) (n : ℕ)
      → lookup k s.streams ≡ some n
      → (n < s.fresh) × (is_completed n s.signals ≡ false)
  pub apart :
      (k j : String) (n : ℕ) → lookup k s.streams ≡ some n → lookup j s.streams ≡ some n → k ≡ j
  pub unused : (n : ℕ) → s.fresh ≤ n → is_completed n s.signals ≡ false
  pub ordered : IsProtocol s.signals

module _ {s : Sse} (v : IsLive s) (k : String) where
  get_or_create-IsLive : IsLive (get_or_create k s).1
  unfolding get_or_create
  get_or_create-IsLive = record {
    open_subject = λ j n. grind (arith, v.open_subject j n, v.unused n, lookup-insert, eq_iff k j);
    apart = λ i j n. grind (
      arith,
      v.apart i j n,
      v.open_subject i n,
      v.open_subject j n,
      lookup-insert,
      eq_iff k j,
      eq_iff k i,
    );
    unused = λ n. grind (arith, v.unused n);
    ordered = grind (arith, v.ordered);
  }

  push-IsLive : (event : Event) → IsLive (push k event s)
  unfolding push
  push-IsLive event = record {
    open_subject = λ j n. grind (arith, v.open_subject j n);
    apart = λ i j n. grind (arith, v.apart i j n);
    unused = λ n. grind (arith, v.unused n);
    ordered = grind (arith, v.ordered, v.open_subject k);
  }

  complete_stream-IsLive : IsLive (complete_stream k s)
  unfolding complete_stream
  complete_stream-IsLive = record {
    open_subject =
        λ j n. grind (arith, v.open_subject j n, lookup-erase, eq_iff k j, v.apart k j n);
    apart = λ i j n. grind (arith, v.apart i j n, lookup-erase, eq_iff k i, eq_iff k j);
    unused = λ n. grind (arith, v.unused n, v.open_subject k);
    ordered = grind (arith, v.ordered, v.open_subject k);
  }

  error_stream-IsLive : (message : Text) → IsLive (error_stream k message s)
  unfolding error_stream
  error_stream-IsLive message = record {
    open_subject =
        λ j n. grind (arith, v.open_subject j n, lookup-erase, eq_iff k j, v.apart k j n);
    apart = λ i j n. grind (arith, v.apart i j n, lookup-erase, eq_iff k i, eq_iff k j);
    unused = λ n. grind (arith, v.unused n, v.open_subject k);
    ordered = grind (arith, v.ordered, v.open_subject k);
  }

  recount-IsLive : (n : ℕ) → IsLive (record s { ref_counts = insert k n s.ref_counts })
  recount-IsLive n = record {
    open_subject = v.open_subject;
    apart = v.apart;
    unused = v.unused;
    ordered = v.ordered;
  }

cleanup-IsLive : {s : Sse} (k : String) → IsLive s → IsLive (cleanup k s)
unfolding cleanup
cleanup-IsLive {s} k v = elim (Option-cases (lookup k s.ref_counts)) [
  | inl e ↦ rw (e, cleanup) v
  | inr (n, e) ↦ elim (Bool-cases (leb (n - 1) 0)) [
    | inl t ↦ rw (e, t, cleanup) (complete_stream-IsLive v k)
    | inr t ↦ rw (e, t, cleanup) (recount-IsLive v k (n - 1))
  ]
]

pub apply-IsLive : (o : Operation) {s : Sse} → IsLive s → IsLive (apply o s)
unfolding apply
apply-IsLive (subscribe k) v = get_or_create-IsLive v k
apply-IsLive (publish k event) v = push-IsLive v k event
apply-IsLive (finish k) v = complete_stream-IsLive v k
apply-IsLive (fail k message) v = error_stream-IsLive v k message
apply-IsLive (disconnect k) v = cleanup-IsLive k v

pub run-IsLive : (os : List Operation) {s : Sse} → IsLive s → IsLive (run os s)
unfolding run
run-IsLive [] v = v
run-IsLive (o ∷ os) v = run-IsLive os (apply-IsLive o v)

pub no_streams-IsLive : IsLive no_streams
unfolding lookup
no_streams-IsLive = record {
  open_subject = λ k n h. cc;
  apart = λ k j n h. cc;
  unused = λ n h. refl;
  ordered = tt;
}

-- Whatever calls are made from the start, in whatever order, no event is sent on a subject after it
-- was completed, and none is completed twice.
pub run-IsProtocol : (os : List Operation) → IsProtocol (run os no_streams).signals
run-IsProtocol os = (run-IsLive os no_streams-IsLive).ordered

-- Two submissions that share a subject, after any sequence of calls from the start, are the same: no
-- event reaches the listeners of another submission.
run-apart :
    (os : List Operation) (k j : String) (n : ℕ)
    → lookup k (run os no_streams).streams ≡ some n
    → lookup j (run os no_streams).streams ≡ some n
    → k ≡ j
run-apart os k j n hk hj = (run-IsLive os no_streams-IsLive).apart k j n hk hj
