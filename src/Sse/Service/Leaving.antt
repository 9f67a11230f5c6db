-- ===== src/Sse/Service/Leaving.antt =====
-- What is sent on one subject when everybody may leave before the job ends.
use codeweaknesses.Common.{
  ℕ, zero, suc, ◌<◌, String, ◌≡◌, ap, ◌∙◌, true, false, List, [], ◌∷◌, ◌++◌, all, arith, eq_iff,
  ltb, Bool-cases, inl, inr,
}
use codeweaknesses.Sse.Events.{Event, submission_error}
use codeweaknesses.Sse.Service.{
  Sse, Signal, next, complete, cleanup, complete_stream, Operation, subscribe, publish, finish,
  fail, disconnect, apply, run,
}
use codeweaknesses.Sse.Service.Following.{
  Interleaved, none_left, from_job, from_others, signals_on, is_apart, is_told, IsFollowed,
  apply-apart, apply-IsFollowed, publish-told, finish-closes, fail-closes, run-closed,
}
use codeweaknesses.Sse.Service.Listeners.{listeners, listen, open_iff}
use codeweaknesses.Sse.Service.Protocol.{is_completed, apply-IsLive}

-- The first events of a list.
abbrev pub take : ℕ → List Event → List Event
take zero es = []
take (suc k) [] = []
take (suc k) (e ∷ es) = e ∷ take k es

-- The events that calls send, that of an error among them, the oldest first.
abbrev pub events_in : List Operation → List Event
events_in [] = []
events_in (publish k event ∷ os) = event ∷ events_in os
events_in (fail k message ∷ os) = submission_error message ∷ events_in os
events_in (_ ∷ os) = events_in os

-- Events sent one after the other on top of what was sent before.
abbrev pub send_all : List Event → List Signal → List Signal
send_all [] before = before
send_all (e ∷ es) before = send_all es (next e ∷ before)

module _ (id : String) (n : ℕ) where
  -- The call after which nobody is left completes the stream.
  leave-closes :
      (o : Operation) {s : Sse}
      → IsFollowed id n s
      → is_apart id o ≡ true
      → ltb 0 (listen id (listeners id s) o) ≡ false
      → (signals_on n (apply o s).signals ≡ complete ∷ signals_on n s.signals)
        × (is_completed n (apply o s).signals ≡ true)
  unfolding apply cleanup complete_stream
  leave-closes (subscribe k) {s} v a e = absurd (grind (arith, open_iff id v.counted, v.there, e))
  leave-closes (publish k event) {s} v a e =
      absurd (grind (arith, open_iff id v.counted, v.there, e))
  leave-closes (finish k) {s} v a e = absurd (grind (arith, open_iff id v.counted, v.there, e, a))
  leave-closes (fail k message) {s} v a e =
      absurd (grind (arith, open_iff id v.counted, v.there, e, a))
  leave-closes (disconnect k) {s} v a e =
      grind (arith, open_iff id v.counted, v.there, eq_iff k id, e)

  pub run-cut :
      {job others os : List Operation}
      → Interleaved job others os
      → is_told id job ≡ true
      → all (is_apart id) others ≡ true
      → {s : Sse} → IsFollowed id n s
      → (after : List Operation)
      → (k : ℕ) × (signals_on n (run (os ++ after) s).signals
          ≡ complete ∷ send_all (take k (events_in job)) (signals_on n s.signals))
  unfolding run
  run-cut none_left t a v after = absurd (ground (arith, t))
  run-cut (from_others {y = y} {xs = xs} {zs = zs} l) t a {s} v after =
      let apart : is_apart id y ≡ true = ground (arith, a) in
      elim (Bool-cases (ltb 0 (listen id (listeners id s) y))) [
        | inl p ↦
            let stays : 0 < listen id (listeners id s) y = ground (arith, p) in
            let (k, e) =
              run-cut l t (ground (arith, a)) (apply-IsFollowed id n y v apart stays) after in
            (
              k,
              e
                  ∙ ap (λ before. complete ∷ send_all (take k (events_in xs)) before)
                      (apply-apart id n y v apart stays).0,
            )
        | inr p ↦
            let (e, c) = leave-closes y v apart p in
            (0, run-closed n (zs ++ after) (apply-IsLive y v.live) c ∙ e)
      ]
  run-cut (from_job {x = publish k event} {xs = xs} l) t a {s} v after =
      let (e, c, v') = publish-told id n k (ground (arith, t)) v event in
      let (m, e') = run-cut l (ground (arith, t)) a v' after in
      (suc m, e' ∙ ap (λ before. complete ∷ send_all (take m (events_in xs)) before) e)
  run-cut (from_job {x = finish k} {xs = []} {zs = zs} l) t a {s} v after =
      let (e, c) = finish-closes id n k t v in
      (0, run-closed n (zs ++ after) (apply-IsLive (finish k) v.live) c ∙ e)
  run-cut (from_job {x = fail k message} {xs = []} {zs = zs} l) t a {s} v after =
      let (e, c) = fail-closes id n k t v message in
      (1, run-closed n (zs ++ after) (apply-IsLive (fail k message) v.live) c ∙ e)
  run-cut (from_job {x = finish k} {xs = o ∷ rest} l) t a {s} v after = absurd (ground (arith, t))
  run-cut (from_job {x = fail k message} {xs = o ∷ rest} l) t a {s} v after =
      absurd (ground (arith, t))
  run-cut (from_job {x = subscribe k} l) t a {s} v after = absurd (ground (arith, t))
  run-cut (from_job {x = disconnect k} l) t a {s} v after = absurd (ground (arith, t))
