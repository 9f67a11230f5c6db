-- ===== src/Sse/Service/Following.antt =====
-- What is sent on one subject while the calls of a job are interleaved with those of others.
use codeweaknesses.Common.{
  ℕ, ◌<◌, String, ◌≡◌, refl, Bool, true, false, ◌&&◌, not, some, List, [], ◌∷◌, ◌++◌, arith, eqb,
  eq_iff, if◌then◌else◌, ◌==◌, ap, ◌∙◌,
}
use codeweaknesses.Common.Assoc.{lookup, lookup-insert, lookup-erase}
use codeweaknesses.Entities.{Text}
use codeweaknesses.Sse.Events.{Event, submission_error}
use codeweaknesses.Sse.Service.{
  Sse, Signal, next, complete, ensure_stream, get_or_create, push, complete_stream, error_stream,
  cleanup, Operation, subscribe, publish, finish, fail, disconnect, apply, run,
}
use codeweaknesses.Sse.Service.Listeners.{
  listeners, IsCounted, apply-IsCounted, listen, listeners-apply,
}
use codeweaknesses.Sse.Service.Protocol.{is_completed, IsLive, apply-IsLive}

-- The calls of two callers, each in order.
pub data Interleaved {ℓ} {A : Type ℓ} : List A → List A → List A → Type ℓ where
  none_left : Interleaved [] [] []
  from_job : {x : A} {xs ys zs : List A} → Interleaved xs ys zs → Interleaved (x ∷ xs) ys (x ∷ zs)
  from_others :
      {y : A} {xs ys zs : List A} → Interleaved xs ys zs → Interleaved xs (y ∷ ys) (y ∷ zs)

-- The order in which `turns` lets the job go on, or the others; then what is left of each.
abbrev pub weave {ℓ} : {A : Type ℓ} → List Bool → List A → List A → List A
weave [] [] ys = ys
weave [] (x ∷ xs) ys = x ∷ weave [] xs ys
weave (true ∷ turns) [] ys = weave turns [] ys
weave (true ∷ turns) (x ∷ xs) ys = x ∷ weave turns xs ys
weave (false ∷ turns) xs [] = weave turns xs []
weave (false ∷ turns) xs (y ∷ ys) = y ∷ weave turns xs ys

pub weave-Interleaved {ℓ} :
    {A : Type ℓ} (turns : List Bool) (xs ys : List A) → Interleaved xs ys (weave turns xs ys)
weave-Interleaved [] [] [] = none_left
weave-Interleaved [] [] (y ∷ ys) = from_others (weave-Interleaved [] [] ys)
weave-Interleaved [] (x ∷ xs) ys = from_job (weave-Interleaved [] xs ys)
weave-Interleaved (true ∷ turns) [] ys = weave-Interleaved turns [] ys
weave-Interleaved (true ∷ turns) (x ∷ xs) ys = from_job (weave-Interleaved turns xs ys)
weave-Interleaved (false ∷ turns) xs [] = weave-Interleaved turns xs []
weave-Interleaved (false ∷ turns) xs (y ∷ ys) = from_others (weave-Interleaved turns xs ys)

-- The signals of a subject, the newest first.
abbrev pub signals_on : ℕ → List (ℕ × Signal) → List Signal
signals_on n [] = []
signals_on n ((m, x) ∷ older) = let rest = signals_on n older in if eqb m n then x ∷ rest else rest

-- A call that sends nothing on the stream of `id`.
abbrev pub is_apart : String → Operation → Bool
is_apart id (subscribe k) = true
is_apart id (publish k event) = not (k == id)
is_apart id (finish k) = not (k == id)
is_apart id (fail k message) = not (k == id)
is_apart id (disconnect k) = true

-- Of `n` who listen, one at least is there after each call, and no call sends anything.
abbrev pub Stays : String → ℕ → List Operation → Type 0
Stays id n [] = Unit
Stays id n (o ∷ os) = (is_apart id o ≡ true) × (0 < listen id n o) × Stays id (listen id n o) os

-- Events for `id`, and one end behind them.
abbrev pub is_told : String → List Operation → Bool
is_told id (publish k event ∷ os) = k == id && is_told id os
is_told id (finish k ∷ []) = k == id
is_told id (fail k message ∷ []) = k == id
is_told id _ = false

-- The signals of these calls, on top of those sent before.
abbrev pub told : List Operation → List Signal → List Signal
told [] heard = heard
told (publish k event ∷ os) heard = told os (next event ∷ heard)
told (finish k ∷ os) heard = told os (complete ∷ heard)
told (fail k message ∷ os) heard = told os (complete ∷ next (submission_error message) ∷ heard)
told (subscribe k ∷ os) heard = told os heard
told (disconnect k ∷ os) heard = told os heard

module _ (n : ℕ) where
  -- A subject that was completed is sent nothing more.
  apply-closed :
      (o : Operation) {s : Sse}
      → IsLive s
      → is_completed n s.signals ≡ true
      → (signals_on n (apply o s).signals ≡ signals_on n s.signals)
        × (is_completed n (apply o s).signals ≡ true)
  unfolding apply get_or_create ensure_stream push complete_stream error_stream cleanup
  apply-closed (subscribe k) {s} v h = ground arith
  apply-closed (publish k event) {s} v h = grind (arith, v.open_subject k n)
  apply-closed (finish k) {s} v h = grind (arith, v.open_subject k n)
  apply-closed (fail k message) {s} v h = grind (arith, v.open_subject k n)
  apply-closed (disconnect k) {s} v h = grind (arith, v.open_subject k n)

  pub run-closed :
      (os : List Operation) {s : Sse}
      → IsLive s
      → is_completed n s.signals ≡ true
      → signals_on n (run os s).signals ≡ signals_on n s.signals
  unfolding run
  run-closed [] v h = refl
  run-closed (o ∷ os) v h =
      let (e, h') = apply-closed o v h in run-closed os (apply-IsLive o v) h' ∙ e

module _ (id : String) (n : ℕ) where
  pub record IsFollowed (s : Sse) : Type 0 where
    pub live : IsLive s
    pub counted : IsCounted s
    pub there : lookup id s.streams ≡ some n

  -- A call of others leaves the stream as it is.
  pub apply-apart :
      (o : Operation) {s : Sse}
      → IsFollowed s
      → is_apart id o ≡ true
      → 0 < listen id (listeners id s) o
      → (signals_on n (apply o s).signals ≡ signals_on n s.signals)
        × (lookup id (apply o s).streams ≡ some n)
  unfolding apply get_or_create ensure_stream push complete_stream error_stream cleanup
  apply-apart (subscribe k) {s} v a h = grind (arith, lookup-insert, eq_iff k id, v.there)
  apply-apart (publish k event) {s} v a h = grind (arith, v.live.apart k id n, eq_iff k id, v.there)
  apply-apart (finish k) {s} v a h =
      grind (arith, v.live.apart k id n, lookup-erase, eq_iff k id, v.there)
  apply-apart (fail k message) {s} v a h =
      grind (arith, v.live.apart k id n, lookup-erase, eq_iff k id, v.there)
  apply-apart (disconnect k) {s} v a h =
      grind (arith, v.live.apart k id n, lookup-erase, eq_iff k id, v.there)

  pub apply-IsFollowed :
      (o : Operation) {s : Sse}
      → IsFollowed s
      → is_apart id o ≡ true
      → 0 < listen id (listeners id s) o
      → IsFollowed (apply o s)
  apply-IsFollowed o v a h = record {
    live = apply-IsLive o v.live;
    counted = apply-IsCounted o v.counted;
    there = (apply-apart o v a h).1;
  }

  module _ (k : String) (e : (k == id) ≡ true) {s : Sse} (v : IsFollowed s) where
    pub publish-told :
        (event : Event)
        → (signals_on n (apply (publish k event) s).signals ≡ next event ∷ signals_on n s.signals)
          × (listeners id (apply (publish k event) s) ≡ listeners id s)
          × IsFollowed (apply (publish k event) s)
    unfolding apply push
    publish-told event = (
      grind (arith, v.there, eq_iff k id),
      listeners-apply id (publish k event) v.counted,
      record {
        live = apply-IsLive (publish k event) v.live;
        counted = apply-IsCounted (publish k event) v.counted;
        there = grind (arith, v.there);
      },
    )

    pub finish-closes :
        (signals_on n (apply (finish k) s).signals ≡ complete ∷ signals_on n s.signals)
        × (is_completed n (apply (finish k) s).signals ≡ true)
    unfolding apply complete_stream
    finish-closes = grind (arith, v.there, eq_iff k id)

    pub fail-closes :
        (message : Text)
        → (signals_on n (apply (fail k message) s).signals
            ≡ complete ∷ next (submission_error message) ∷ signals_on n s.signals)
          × (is_completed n (apply (fail k message) s).signals ≡ true)
    unfolding apply error_stream complete_stream
    fail-closes message = grind (arith, v.there, eq_iff k id)

  pub run-told :
      {job others os : List Operation}
      → Interleaved job others os
      → is_told id job ≡ true
      → {s : Sse} → IsFollowed s
      → Stays id (listeners id s) others
      → (after : List Operation)
      → signals_on n (run (os ++ after) s).signals ≡ told job (signals_on n s.signals)
  unfolding run
  run-told none_left t v h after = ground arith
  run-told (from_others {y = y} {xs = xs} l) t {s} v (a, p, h) after =
      run-told l t (apply-IsFollowed y v a p) (rw (listeners-apply id y v.counted) h) after
      ∙ ap (told xs) (apply-apart y v a p).0
  run-told (from_job {x = publish k event} {xs = xs} l) t {s} v h after =
      let (e, c, v') = publish-told k (ground (arith, t)) v event in
      run-told l (ground (arith, t)) v' (rw c h) after ∙ ap (told xs) e
  run-told (from_job {x = finish k} {xs = []} {zs = zs} l) t {s} v h after =
      let (e, c) = finish-closes k t v in
      run-closed n (zs ++ after) (apply-IsLive (finish k) v.live) c ∙ e
  run-told (from_job {x = fail k message} {xs = []} {zs = zs} l) t {s} v h after =
      let (e, c) = fail-closes k t v message in
      run-closed n (zs ++ after) (apply-IsLive (fail k message) v.live) c ∙ e
  run-told (from_job {x = finish k} {xs = o ∷ rest} l) t {s} v h after = ground arith
  run-told (from_job {x = fail k message} {xs = o ∷ rest} l) t {s} v h after = ground arith
  run-told (from_job {x = subscribe k} l) t {s} v h after = ground arith
  run-told (from_job {x = disconnect k} l) t {s} v h after = ground arith
