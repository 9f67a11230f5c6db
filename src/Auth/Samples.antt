-- ===== src/Auth/Samples.antt =====
-- Concrete tokens and hashes, good for nothing but examples. A token lists its expiry, the role and
-- then the secret, the identifier and the name, each closed by a zero.
use Prim.Native.Char.{Char, char, code, nul, IsScalar}
use text.Mathlib.TextEquality.{Char-path}
use codeweaknesses.Common.{
  ℕ, zero, suc, ◌+◌, ◌<◌, compare, Ordering, String, ◌≡◌, refl, ap, ◌∙◌, true, ◌&&◌, Option, none,
  some, [], ◌∷◌, arith, ltb, if◌then◌else◌, ◌==◌, eq_refl,
}
use codeweaknesses.Entities.{Text, Role, admin, editor, user}
use codeweaknesses.Auth.Tokens.{Jwt, JwtPayload, one_day, seconds}
use codeweaknesses.Auth.Users.{Bcrypt}
use codeweaknesses.Judge.Output.{is_filled}

scalar :
    (n : ℕ) (below above top : Ordering)
    → compare n 55296 ≡ below
    → compare 57343 n ≡ above
    → compare n 1114112 ≡ top
    → Option (IsScalar n)
scalar n Ordering.lt above top e f g = some (rw e tt)
scalar n Ordering.eq Ordering.lt Ordering.lt e f g = some (rw (e, f, g) tt)
scalar n Ordering.gt Ordering.lt Ordering.lt e f g = some (rw (e, f, g) tt)
scalar n below above top e f g = none

scalar-some :
    (n : ℕ) (below above top : Ordering) (e : compare n 55296 ≡ below) (f : compare 57343 n ≡ above)
    (g : compare n 1114112 ≡ top)
    → IsScalar n
    → (p : IsScalar n) × (scalar n below above top e f g ≡ some p)
unfolding scalar
scalar-some n Ordering.lt above top e f g p = (rw e tt, refl)
scalar-some n Ordering.eq Ordering.lt Ordering.lt e f g p = (rw (e, f, g) tt, refl)
scalar-some n Ordering.gt Ordering.lt Ordering.lt e f g p = (rw (e, f, g) tt, refl)
scalar-some n Ordering.eq Ordering.lt Ordering.eq e f g p = absurd (rw (e, f, g) at p)
scalar-some n Ordering.eq Ordering.lt Ordering.gt e f g p = absurd (rw (e, f, g) at p)
scalar-some n Ordering.gt Ordering.lt Ordering.eq e f g p = absurd (rw (e, f, g) at p)
scalar-some n Ordering.gt Ordering.lt Ordering.gt e f g p = absurd (rw (e, f, g) at p)
scalar-some n Ordering.eq Ordering.eq top e f g p = absurd (rw (e, f) at p)
scalar-some n Ordering.eq Ordering.gt top e f g p = absurd (rw (e, f) at p)
scalar-some n Ordering.gt Ordering.eq top e f g p = absurd (rw (e, f) at p)
scalar-some n Ordering.gt Ordering.gt top e f g p = absurd (rw (e, f) at p)

character : ℕ → Char
unfolding scalar
character n = elim (scalar n _ _ _ refl refl refl) [ none ↦ nul | some p ↦ char n p ]

character-code : (c : Char) → character (code c) ≡ c
unfolding character
character-code (char n p) =
    let (q, e) = scalar-some n _ _ _ refl refl refl p in
    let opened : character n ≡ char n q = ap (λ o. elim o [ none ↦ nul | some r ↦ char n r ]) e in
    opened ∙ Char-path (char n q) (char n p) refl

unfoldable pub closed : String → Text → Text
closed String.[] rest = 0 ∷ rest
closed (String.◌∷◌ c s) rest = suc (code c) ∷ closed s rest

unfoldable pub opened : Text → String × Text
unfolding character
opened [] = (String.[], [])
opened (zero ∷ rest) = (String.[], rest)
opened (suc n ∷ rest) = let (s, later) = opened rest in (String.◌∷◌ (character n) s, later)

opened-closed : (s : String) (rest : Text) → opened (closed s rest) ≡ (s, rest)
unfolding opened closed
opened-closed String.[] rest = refl
opened-closed (String.◌∷◌ c s) rest = ground (arith, opened-closed s rest, character-code c)

abbrev role_number : Role → ℕ
role_number admin = 0
role_number editor = 1
role_number user = 2

abbrev role_of : ℕ → Role
role_of zero = admin
role_of (suc zero) = editor
role_of (suc (suc n)) = user

unfoldable pub sign : String → ℕ → JwtPayload → Text
unfolding closed
sign secret issued payload =
    (seconds issued + one_day)
    ∷ role_number payload.role
    ∷ closed secret (closed payload.sub (closed payload.name []))

unfoldable pub verify : String → ℕ → Text → Option JwtPayload
unfolding opened
verify secret now [] = none
verify secret now (expiry ∷ []) = none
verify secret now (expiry ∷ role ∷ fields) =
    let (signed, rest) = opened fields in
    let (sub, later) = opened rest in
    let (name, end) = opened later in
    if ltb (seconds now) expiry && signed == secret
    then some (record { sub = sub; name = name; role = role_of role })
    else none

role_of-number : (r : Role) → role_of (role_number r) ≡ r
role_of-number admin = refl
role_of-number editor = refl
role_of-number user = refl

pub verify-sign :
    (secret : String) (issued now : ℕ) (payload : JwtPayload)
    → seconds now < seconds issued + one_day
    → verify secret now (sign secret issued payload) ≡ some payload
unfolding verify sign
verify-sign secret issued now payload h = ground (
  arith,
  opened-closed secret (closed payload.sub (closed payload.name [])),
  opened-closed payload.sub (closed payload.name []),
  opened-closed payload.name [],
  role_of-number payload.role,
  eq_refl secret,
)

pub sign-filled :
    (secret : String) (issued : ℕ) (payload : JwtPayload)
    → is_filled (sign secret issued payload) ≡ true
unfolding sign
sign-filled secret issued payload = refl

abbrev pub plain_tokens : Jwt
plain_tokens = record {
  sign = sign;
  verify = verify;
  verify-sign = verify-sign;
  sign-filled = sign-filled;
}

unfoldable pub readable : Text → String
unfolding character
readable [] = String.[]
readable (c ∷ s) = String.◌∷◌ (character c) (readable s)

abbrev pub plain_hashes : Bcrypt
plain_hashes = record {
  hash = λ password salt. readable password;
  compare = λ password hash. readable password == hash;
  compare-hash = λ password salt. eq_refl (readable password);
}
