-- ===== src/Sse/Service.antt =====
-- `SubmissionSseService` (src/sse/submission-sse.service.ts). A `Subject` of rxjs is its number; the
-- calls made on subjects are kept in `signals`, the newest first.
pub mod Protocol
pub mod Following
pub mod Leaving
pub mod Listeners
use codeweaknesses.Common.{
  ℕ, ◌+◌, ◌-◌, String, Bool, Option, none, some, List, [], ◌∷◌, leb, or_else, if◌then◌else◌,
}
use codeweaknesses.Common.Assoc.{Assoc, lookup, insert, erase}
use codeweaknesses.Entities.{Text}
use codeweaknesses.Sse.Events.{Event, submission_error}

pub data Signal : Type 0 where
  next : Event → Signal
  complete : Signal

pub record Sse : Type 0 where
  pub streams : Assoc ℕ
  pub ref_counts : Assoc ℕ
  pub fresh : ℕ
  pub signals : List (ℕ × Signal)

abbrev pub no_streams : Sse
no_streams = record { streams = []; ref_counts = []; fresh = 0; signals = [] }

-- The first statement of `getOrCreate`.
unfoldable pub ensure_stream : String → Sse → Sse
ensure_stream submission_id s = elim (lookup submission_id s.streams) [
  | some subject ↦ s
  | none ↦ record s {
    streams = insert submission_id s.fresh s.streams;
    ref_counts = insert submission_id 0 s.ref_counts;
    fresh = s.fresh + 1;
  }
]

-- The state after `getOrCreate`, which hands out the subject of `submission_id`.
unfoldable pub get_or_create : String → Sse → Option ℕ × Sse
unfolding ensure_stream
get_or_create submission_id s =
    let s' = ensure_stream submission_id s in
    let current_count = or_else (lookup submission_id s'.ref_counts) 0 in
    (
      lookup submission_id s'.streams,
      record s' { ref_counts = insert submission_id (current_count + 1) s'.ref_counts },
    )

abbrev pub signal : ℕ → Signal → Sse → Sse
signal subject x s = record s { signals = (subject, x) ∷ s.signals }

unfoldable pub push : String → Event → Sse → Sse
push submission_id event s = elim (lookup submission_id s.streams) [
  | none ↦ s
  | some subject ↦ signal subject (next event) s
]

unfoldable pub complete_stream : String → Sse → Sse
complete_stream submission_id s = elim (lookup submission_id s.streams) [
  | none ↦ s
  | some subject ↦ record s {
    streams = erase submission_id s.streams;
    ref_counts = erase submission_id s.ref_counts;
    signals = (subject, complete) ∷ s.signals;
  }
]

unfoldable pub error_stream : String → Text → Sse → Sse
unfolding complete_stream
error_stream submission_id message s = elim (lookup submission_id s.streams) [
  | none ↦ s
  | some subject ↦
      complete_stream submission_id (signal subject (next (submission_error message)) s)
]

-- The decrement stops at 0, where the source goes on to -1; both are in the first branch.
unfoldable pub cleanup : String → Sse → Sse
unfolding complete_stream
cleanup submission_id s = elim (lookup submission_id s.ref_counts) [
  | none ↦ s
  | some count ↦
      let current_count = count - 1 in
      if leb current_count 0
      then complete_stream submission_id s
      else record s { ref_counts = insert submission_id current_count s.ref_counts }
]

-- The calls that controllers and the processor make.
pub data Operation : Type 0 where
  subscribe : String → Operation
  publish : String → Event → Operation
  finish : String → Operation
  fail : String → Text → Operation
  disconnect : String → Operation

unfoldable pub apply : Operation → Sse → Sse
apply (subscribe id) s = (get_or_create id s).1
apply (publish id event) s = push id event s
apply (finish id) s = complete_stream id s
apply (fail id message) s = error_stream id message s
apply (disconnect id) s = cleanup id s

unfoldable pub run : List Operation → Sse → Sse
run [] s = s
run (o ∷ os) s = run os (apply o s)
