-- ===== src/Judge/Execution/Streams.antt =====
-- What `Promise.race` over `readStream` and `timeoutPromise` gives, and the memory that
-- `getContainerStats` finds (src/submissions/judge/judge-engine.service.ts). What happens while a container
-- runs is a list of happenings, the earliest first; a chunk of data is a list of bytes. Where `container.wait()`
-- rejects, the promise of the streams stays open; that the rejection is handled nowhere is not modelled.
use codeweaknesses.Common.{
  ◌||◌, ℕ, ◌≡◌, Bool, true, false, ◌&&◌, Option, none, some, List, [], ◌∷◌, ◌++◌, any,
  if◌then◌else◌,
}
use codeweaknesses.Entities.{Text}
use codeweaknesses.Judge.Execution.{Race, timeout, streams, stream_error}

pub data Happening : Type 0 where
  stdout stderr : List ℕ → Happening
  ended : Happening
  exited : Happening
  wait_failed : Happening
  errored : Happening
  timer : Happening

-- The variables of `readStream`. The container is waited for once the stream has ended.
pub record Reading : Type 0 where
  pub output : Text
  pub error : Text
  pub has_ended : Bool
  pub has_exited : Bool

abbrev pub at_first : Reading
at_first = record { output = []; error = []; has_ended = false; has_exited = false }

-- `data.toString()` decodes one chunk.
module _ (to_string : List ℕ → Text) where
  abbrev pub heard : Happening → Reading → Reading
  heard (stdout data_) r = record r { output = r.output ++ to_string data_ }
  heard (stderr data_) r = record r { error = r.error ++ to_string data_ }
  heard ended r = record r { has_ended = true }
  heard exited r = record r { has_exited = true }
  heard wait_failed r = r
  heard errored r = r
  heard timer r = r

  -- What the promises are settled with by a happening, if they are.
  abbrev pub settles : Happening → Reading → Option Race
  settles errored r = some stream_error
  settles timer r = some timeout
  settles _ r = if r.has_ended && r.has_exited then some (streams r.output r.error) else none

  -- The first promise that settles wins; `none` if none ever does.
  unfoldable pub race : Reading → List Happening → Option Race
  race r [] = none
  race r (h ∷ later) =
      let r' = heard h r in
      let rest = race r' later in elim (settles h r') [ some winner ↦ some winner | none ↦ rest ]

-- What `container.stats` hands to its callback: an error, bytes to parse, an object, or nothing. Of the
-- statistics only the usage of memory is read.
pub data StatsAnswer : Type 0 where
  no_stats : StatsAnswer
  buffer : List ℕ → StatsAnswer
  object : Option ℕ → StatsAnswer

-- `parse` is `JSON.parse` and the lookup of `memory_stats?.usage`.
abbrev pub memory_usage_of : (List ℕ → Option (Option ℕ)) → StatsAnswer → Option ℕ
memory_usage_of parse no_stats = none
memory_usage_of parse (buffer bytes) = elim (parse bytes) [ none ↦ none | some usage ↦ usage ]
memory_usage_of parse (object usage) = usage

abbrev pub is_timer : Happening → Bool
is_timer timer = true
is_timer _ = false

abbrev pub is_errored : Happening → Bool
is_errored errored = true
is_errored _ = false

abbrev pub is_ended : Happening → Bool
is_ended ended = true
is_ended _ = false

abbrev pub is_exited : Happening → Bool
is_exited exited = true
is_exited _ = false

-- Time is up, the stream has failed, or it has ended and the container has exited; `has_ended` and
-- `has_exited` say what of this was so before.
abbrev pub is_over : (has_ended has_exited : Bool) → List Happening → Bool
is_over has_ended has_exited hs =
    any is_timer hs
    || (any is_errored hs || ((has_ended || any is_ended hs) && (has_exited || any is_exited hs)))

module _ (to_string : List ℕ → Text) where
  abbrev pub heard_all : List Happening → Reading → Reading
  heard_all [] r = r
  heard_all (h ∷ hs) r = heard_all hs (heard to_string h r)

  -- All that was printed, chunk by chunk, and all that was printed as errors.
  abbrev pub printed : List Happening → Text
  printed [] = []
  printed (stdout bytes ∷ hs) = to_string bytes ++ printed hs
  printed (_ ∷ hs) = printed hs

  abbrev pub complained : List Happening → Text
  complained [] = []
  complained (stderr bytes ∷ hs) = to_string bytes ++ complained hs
  complained (_ ∷ hs) = complained hs

  -- The happening that settles the race, between what comes before and after it.
  pub record IsSettled (r : Reading) (hs : List Happening) : Type 0 where
    pub before : List Happening
    pub last : Happening
    pub after : List Happening
    pub winner : Race
    pub split : hs ≡ before ++ last ∷ after
    pub undecided : is_over r.has_ended r.has_exited before ≡ false
    pub over : is_over r.has_ended r.has_exited (before ++ last ∷ []) ≡ true
    pub wins : race to_string r hs ≡ some winner
    pub settled : settles to_string last (heard_all (before ++ last ∷ []) r) ≡ some winner

  abbrev is_done : Reading → Bool
  is_done r = r.has_ended && r.has_exited

  -- What a happening that settles the race makes of it, after all that was printed.
  abbrev pub outcome_of : Happening → List Happening → Race
  outcome_of timer hs = timeout
  outcome_of errored hs = stream_error
  outcome_of _ hs = streams (printed hs) (complained hs)
