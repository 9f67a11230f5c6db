-- ===== src/Queue/Config.antt =====
-- How src/queue/queue.service.ts reads numbers from the configuration. A text is a list of UTF-16 code
-- units; a number of the configuration is an integer, or one that `Number.isInteger` refuses.
use codeweaknesses.Common.{
  ℕ, ◌+◌, ◌-◌, ◌*◌, Bool, true, false, ◌&&◌, ◌||◌, Option, none, some, List, [], ◌∷◌, ◌++◌, leb,
  ltb, eqb, or_else, if◌then◌else◌,
}
use codeweaknesses.Common.Int.{ℤ, pos, negsuc}
use codeweaknesses.Entities.{Text, codes}
use codeweaknesses.Judge.Output.{trim_start, text_eq}

pub data Number : Type 0 where
  integer : ℤ → Number
  not_integer : Number

pub data ConfigValue : Type 0 where
  text : Text → ConfigValue
  number : Number → ConfigValue

-- `configService.get`, with `none` for undefined and null.
abbrev pub Settings : Type 0
Settings = Text → Option ConfigValue

abbrev pub get_or_default : Settings → Text → ConfigValue → ConfigValue
get_or_default config key default = or_else (config key) default

abbrev pub is_digit : ℕ → Bool
is_digit c = leb b'0' c && leb c b'9'

-- The number that the digits at the front spell after `n`; `none` if there is none.
unfoldable pub read_digits : Option ℕ → Text → Option ℕ
read_digits n [] = n
read_digits n (c ∷ s) =
    let rest = read_digits (some (or_else n 0 * 10 + (c - b'0'))) s in
    if is_digit c then rest else n

abbrev pub negate : ℕ → ℤ
negate n = if eqb n 0 then pos 0 else negsuc (n - 1)

unfoldable pub read_signed : Text → Option ℤ
unfolding read_digits
read_signed [] = none
read_signed (c ∷ s) =
    if eqb c b'-'
    then elim (read_digits none s) [ none ↦ none | some n ↦ some (negate n) ]
    else if eqb c b'+'
    then elim (read_digits none s) [ none ↦ none | some n ↦ some (pos n) ]
    else elim (read_digits none (c ∷ s)) [ none ↦ none | some n ↦ some (pos n) ]

-- `Number.parseInt(s, 10)`, with `none` for NaN: exact up to the largest safe integer, beyond which
-- JavaScript rounds.
unfoldable pub parse_int : Text → Option ℤ
unfolding read_signed
parse_int s = read_signed (trim_start s)

abbrev pub parsed_value : ConfigValue → Number
parsed_value (number n) = n
parsed_value (text s) = elim (parse_int s) [ none ↦ not_integer | some z ↦ integer z ]

unfoldable pub parse_positive_integer : ConfigValue → ℕ → ℕ
unfolding parse_int
parse_positive_integer value fallback = elim (parsed_value value) [
  | not_integer ↦ fallback
  | integer z ↦ elim z [ negsuc n ↦ fallback | pos n ↦ if ltb n 1 then fallback else n ]
]

-- Whether a value is not undefined, not null, and not the empty text.
abbrev pub is_set : Option ConfigValue → Bool
is_set none = false
is_set (some (text [])) = false
is_set (some (text (c ∷ s))) = true
is_set (some (number n)) = true

unfoldable pub get_positive_integer_config : Settings → Text → ℕ → ℕ
get_positive_integer_config config key fallback = elim (config key) [
  | none ↦ fallback
  | some value ↦ if is_set (some value) then parse_positive_integer value fallback else fallback
]

abbrev pub is_alphanumeric : ℕ → Bool
is_alphanumeric c = (leb b'a' c && leb c b'z') || (leb b'A' c && leb c b'Z') || is_digit c

-- `.replace(/[^a-zA-Z0-9]+/g, '_')`; the flag says that the run before was replaced already.
unfoldable pub underscores : Bool → Text → Text
underscores in_run [] = []
underscores in_run (c ∷ s) =
    let kept = c ∷ underscores false s in
    let run = underscores true s in
    if is_alphanumeric c then kept else if in_run then run else b'_' ∷ run

-- `.toUpperCase()` on letters, digits and underscores.
unfoldable pub to_upper : Text → Text
to_upper [] = []
to_upper (c ∷ s) = (if leb b'a' c && leb c b'z' then c - 32 else c) ∷ to_upper s

abbrev pub ends_with_s : Text → Bool
ends_with_s [] = false
ends_with_s (c ∷ []) = eqb c b'S'
ends_with_s (c ∷ d ∷ s) = ends_with_s (d ∷ s)

-- `.slice(0, -1)`
abbrev pub drop_last : Text → Text
drop_last [] = []
drop_last (c ∷ []) = []
drop_last (c ∷ d ∷ s) = c ∷ drop_last (d ∷ s)

unfoldable pub get_queue_concurrency_env_keys : Text → List Text
unfolding underscores to_upper
get_queue_concurrency_env_keys queue_name =
    let name = to_upper (underscores false queue_name) in
    let env_keys = (name ++ codes "_WORKER_CONCURRENCY") ∷ [] in
    if ends_with_s name
    then (drop_last name ++ codes "_WORKER_CONCURRENCY") ∷ env_keys
    else env_keys

-- The loop over the keys, which ends at the first that is set.
unfoldable pub first_configured : Settings → List Text → ℕ → ℕ
first_configured config [] queue_default = queue_default
first_configured config (key ∷ keys) queue_default =
    let later = first_configured config keys queue_default in
    elim (config key) [
      | none ↦ later
      | some value ↦
          if is_set (some value) then parse_positive_integer value queue_default else later
    ]

unfoldable pub get_worker_concurrency : Settings → Text → ℕ
unfolding first_configured
get_worker_concurrency config queue_name =
    let global_fallback = get_positive_integer_config config (codes "WORKER_CONCURRENCY") 1 in
    let queue_default = if text_eq queue_name (codes "submissions") then 2 else global_fallback in
    first_configured config (get_queue_concurrency_env_keys queue_name) queue_default
