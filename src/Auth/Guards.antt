-- ===== src/Auth/Guards.antt =====
-- The guards of a route: `JwtStrategy` (src/auth/jwt.strategy.ts) behind Passport's `AuthGuard('jwt')`, and
-- `RolesGuard` (src/auth/guards/roles.guard.ts). A request carries the token of its header, if any.
use codeweaknesses.Common.{
  Bool-cases, arith, inr, inl, ℕ, String, ◌≡◌, refl, Bool, true, false, Option, none, some, List,
  any, if◌then◌else◌, ◌==◌,
}
use codeweaknesses.Common.Results.{Result-cases, Result, ok, err, unauthorized, forbidden, ◌>>=◌}
use codeweaknesses.Common.Texts.{starts_with, includes}
use codeweaknesses.Entities.{Text, codes, Role, admin, editor, user, role_value}
use codeweaknesses.Auth.Tokens.{Jwt, JwtPayload}

abbrev pub secret_or_key : String
secret_or_key = "SUPER_SECRET_KEY_CHANGE_IN_PRODUCTION"

-- `request.user`
pub record RequestUser : Type 0 where
  pub user_id : String
  pub name : String
  pub role : Role

abbrev pub validate : JwtPayload → RequestUser
validate payload = record { user_id = payload.sub; name = payload.name; role = payload.role }

-- `AuthGuard('jwt')`
unfoldable pub authenticate : Jwt → ℕ → Option Text → Result RequestUser
authenticate jwt now none = err (unauthorized "Unauthorized")
authenticate jwt now (some token) = elim (jwt.verify secret_or_key now token) [
  | none ↦ err (unauthorized "Unauthorized")
  | some payload ↦ ok (validate payload)
]

-- `user?.role?.includes(role)` is asked of the role's string.
abbrev pub has_role : Option RequestUser → Role → Bool
has_role none role = false
has_role (some u) role = includes (codes (role_value u.role)) (codes (role_value role))

unfoldable pub can_activate : Option (List Role) → Option RequestUser → Bool
can_activate none u = true
can_activate (some required_roles) u = any (has_role u) required_roles

-- `@UseGuards(AuthGuard('jwt'), RolesGuard) @Roles(...)` before a handler.
unfoldable pub guarded : {A : Type 0} → Jwt → ℕ → Option Text → List Role → Result A → Result A
unfolding authenticate can_activate
guarded jwt now bearer roles handler = authenticate jwt now bearer >>= λ u.
    if can_activate (some roles) (some u) then handler else err (forbidden "Forbidden resource")

role_includes :
    (a b : Role)
    → includes (codes (role_value a)) (codes (role_value b)) ≡ (role_value a == role_value b)
unfolding includes starts_with
role_includes admin admin = refl
role_includes admin editor = refl
role_includes admin user = refl
role_includes editor admin = refl
role_includes editor editor = refl
role_includes editor user = refl
role_includes user admin = refl
role_includes user editor = refl
role_includes user user = refl

-- No role's string is a part of another's.
pub has_role-eq :
    (u : RequestUser) (role : Role)
    → has_role (some u) role ≡ (role_value u.role == role_value role)
has_role-eq u role = role_includes u.role role

-- A guarded handler answers only to a valid token of one of the roles.
pub guarded-ok :
    {A : Type 0} (jwt : Jwt) (now : ℕ) (bearer : Option Text) (roles : List Role)
    (handler : Result A) (answer : A)
    → guarded jwt now bearer roles handler ≡ ok answer
    → (handler ≡ ok answer)
      × ((u : RequestUser) × (authenticate jwt now bearer ≡ ok u)
          × (any (has_role (some u)) roles ≡ true))
unfolding guarded can_activate
guarded-ok jwt now bearer roles handler answer h =
    elim (Result-cases (authenticate jwt now bearer)) [
      | inl (u, e) ↦ elim (Bool-cases (any (has_role (some u)) roles)) [
        | inl allowed ↦ (ground (arith, e), (u, e, allowed))
        | inr refused ↦ absurd (ground (arith, e))
      ]
      | inr (e', e) ↦ absurd (ground (arith, e))
    ]
