-- ===== src/Auth/Tokens.antt =====
-- What a token holds, and what src/auth/auth.service.ts, src/auth/jwt.strategy.ts and
-- src/leaderboard/leaderboard.gateway.ts rely on of `jsonwebtoken`. Texts are lists of UTF-16 code units.
use codeweaknesses.Common.{◌/◌, true, ℕ, ◌+◌, ◌<◌, String, ◌≡◌, Option, some}
use codeweaknesses.Judge.Output.{is_filled}
use codeweaknesses.Entities.{Text, Role}

pub record JwtPayload : Type 0 where
  pub sub : String
  pub name : String
  pub role : Role

-- `signOptions: { expiresIn: '1d' }`, in seconds.
abbrev pub one_day : ℕ
one_day = 86400

-- The clock in milliseconds as `jsonwebtoken` reads it: in whole seconds, rounded down.
abbrev pub seconds : ℕ → ℕ
seconds ms = ms / 1000

-- `sign secret now payload` is a token that expires after a day; `verify secret now token` throws
-- (`none`) unless the token was signed with the secret and has not expired. No token is empty.
pub record Jwt : Type 0 where
  pub sign : String → ℕ → JwtPayload → Text
  pub verify : String → ℕ → Text → Option JwtPayload
  pub verify-sign :
      (secret : String) (issued now : ℕ) (payload : JwtPayload)
      → seconds now < seconds issued + one_day
      → verify secret now (sign secret issued payload) ≡ some payload
  pub sign-filled :
      (secret : String) (issued : ℕ) (payload : JwtPayload)
      → is_filled (sign secret issued payload) ≡ true
