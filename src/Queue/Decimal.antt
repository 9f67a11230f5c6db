-- ===== src/Queue/Decimal.antt =====
-- What is read back from a printed number.
use Prim.Native.Nat.{◌%◌}
use codeweaknesses.Submissions.Processor.Score.{max_safe_integer}
use codeweaknesses.Common.{
  ◌∙◌, ◌≤◌, refl, List, ℕ, zero, suc, ◌+◌, ◌/◌, ◌<◌, ◌≡◌, true, none, some, [], ◌∷◌, arith,
}
use codeweaknesses.Common.Int.{pos}
use codeweaknesses.Common.Texts.{decimal, decimal_from}
use codeweaknesses.Entities.{Text}
use codeweaknesses.Judge.Output.{trim_start, is_space}
use codeweaknesses.Queue.Config.{
  ConfigValue, first_configured, get_queue_concurrency_env_keys, text, Settings,
  parse_positive_integer, get_worker_concurrency, is_set, read_digits, parse_int, is_digit,
}

read_digits-decimal_from :
    (fuel n : ℕ) (digits : Text)
    → n < fuel
    → read_digits none (decimal_from fuel n digits) ≡ read_digits (some n) digits
unfolding decimal_from read_digits
read_digits-decimal_from zero n digits h = absurd (omega arith)
read_digits-decimal_from (suc fuel) n digits h =
    ground (arith, read_digits-decimal_from fuel (n / 10) ((48 + n % 10) ∷ digits))

abbrev StartsWithDigit : Text → Type 0
StartsWithDigit [] = ⊥
StartsWithDigit (c ∷ s) = is_digit c ≡ true

decimal_from-StartsWithDigit :
    (fuel n : ℕ) (digits : Text) → n < fuel → StartsWithDigit (decimal_from fuel n digits)
unfolding decimal_from
decimal_from-StartsWithDigit zero n digits h = absurd (omega arith)
decimal_from-StartsWithDigit (suc fuel) n digits h =
    ground (arith, decimal_from-StartsWithDigit fuel (n / 10) ((48 + n % 10) ∷ digits))

parse_int_of_digits :
    (s : Text) (n : ℕ)
    → StartsWithDigit s
    → read_digits none s ≡ some n
    → parse_int s ≡ some (pos n)
unfolding parse_int trim_start is_space
parse_int_of_digits [] n d h = absurd d
parse_int_of_digits (c ∷ s) n d h = ground (arith, d, h)

pub parse_int-decimal : (n : ℕ) → parse_int (decimal n) ≡ some (pos n)
unfolding decimal read_digits
parse_int-decimal n =
    parse_int_of_digits (decimal_from (suc n) n []) n
      (decimal_from-StartsWithDigit (suc n) n [] (omega arith))
      (read_digits-decimal_from (suc n) n [] (omega arith))

parse_positive_integer-decimal :
    (n fallback : ℕ) → 0 < n → parse_positive_integer (text (decimal n)) fallback ≡ n
unfolding parse_positive_integer
parse_positive_integer-decimal n fallback h = ground (arith, parse_int-decimal n)

is_set_of_digits : (s : Text) → StartsWithDigit s → is_set (some (text s)) ≡ true
is_set_of_digits [] d = absurd d
is_set_of_digits (c ∷ s) d = refl

decimal-is_set : (n : ℕ) → is_set (some (text (decimal n))) ≡ true
unfolding decimal
decimal-is_set n =
    is_set_of_digits (decimal_from (suc n) n [])
      (decimal_from-StartsWithDigit (suc n) n [] (omega arith))

first_configured-cons :
    (config : Settings) (key : Text) (keys : List Text) (value : ConfigValue) (queue_default : ℕ)
    → config key ≡ some value
    → is_set (some value) ≡ true
    → first_configured config (key ∷ keys) queue_default
      ≡ parse_positive_integer value queue_default
unfolding first_configured
first_configured-cons config key keys value queue_default found set = ground (arith, found, set)

-- A concurrency that is written in decimal under the first name that is asked for a queue, for example
-- SUBMISSION_WORKER_CONCURRENCY for the queue `submissions`, is read back, whatever else is
-- configured, if it is positive and at most the largest safe integer.
pub get_worker_concurrency-decimal :
    (config : Settings) (queue_name key : Text) (keys : List Text) (n : ℕ)
    → get_queue_concurrency_env_keys queue_name ≡ key ∷ keys
    → config key ≡ some (text (decimal n))
    → 0 < n
    → n ≤ max_safe_integer
    → get_worker_concurrency config queue_name ≡ n
unfolding get_worker_concurrency
get_worker_concurrency-decimal config queue_name key keys n names found positive safe = rw names (
    first_configured-cons config key keys (text (decimal n)) _ found (decimal-is_set n)
    ∙ parse_positive_integer-decimal n _ positive)
