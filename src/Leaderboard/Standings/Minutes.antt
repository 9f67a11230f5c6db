-- ===== src/Leaderboard/Standings/Minutes.antt =====
-- `timeMinutes` of src/leaderboard/leaderboard.service.ts.
use codeweaknesses.Common.{ℕ, ◌-◌, ◌/◌, ◌≤◌, ◌≡◌, arith}
use codeweaknesses.Common.Int.{sub_ℕ, floor_div, max_zero}

-- `Math.max(0, Math.floor((at - start) / 60_000))`
unfoldable pub minutes_since : ℕ → ℕ → ℕ
minutes_since start at = max_zero (floor_div (sub_ℕ at start) 60000)

pub minutes_since_lem : (start at : ℕ) → minutes_since start at ≡ (at - start) / 60000
unfolding minutes_since
minutes_since_lem start at = ground arith

pub minutes_since_mono : (start a b : ℕ) → a ≤ b → minutes_since start a ≤ minutes_since start b
minutes_since_mono start a b h = omega (arith, minutes_since_lem start a, minutes_since_lem start b)
