-- ===== src/Auth/Examples.antt =====
-- One user registers, and the application starts.
use codeweaknesses.Common.{if◌then◌else◌, ◌≡◌, refl, none, some, List, [], ◌∷◌, arith}
use codeweaknesses.Common.Results.{ok, err, unauthorized}
use codeweaknesses.Entities.{Text, codes, user, admin, User}
use codeweaknesses.Leaderboard.Gateway.{identify, authenticated}
use codeweaknesses.Auth.Access.{on_application_bootstrap_lem}
use codeweaknesses.Auth.Accounts.{register-login, payload_of}
use codeweaknesses.Auth.Guards.{secret_or_key, authenticate}
use codeweaknesses.Auth.Samples.{plain_tokens, plain_hashes}
use codeweaknesses.Auth.Users.{
  LoginDto, new_user, register, log_in, validated, is_password, on_application_bootstrap,
}

abbrev ada : LoginDto
ada = record { name = "ada"; password = codes "engine" }

abbrev grace : User
grace = new_user "u1" "grace" "compiler" user

abbrev ada_token : Text
ada_token = plain_tokens.sign secret_or_key 10 (payload_of "u2" "ada")

abbrev ada_row : User
ada_row = new_user "u2" "ada" (plain_hashes.hash (codes "engine") "salt") user

register-login_example :
    (token : Text) × (after : List User) × (register plain_hashes plain_tokens 10 "salt" "u2" ada
        (grace ∷ [])
      ≡ ok (token, after))
    × (authenticate plain_tokens 20 (some token)
        ≡ ok (record { user_id = "u2"; name = "ada"; role = user }))
    × (identify plain_tokens secret_or_key 20
          (record { auth_token = some token; authorization = none; query_token = none })
        ≡ authenticated "u2" "ada" user)
    × ((attempt : Text)
        → log_in plain_hashes plain_tokens 20 (record { name = "ada"; password = attempt }) after
          ≡ validated (is_password attempt) (
              if plain_hashes.compare attempt (plain_hashes.hash (codes "engine") "salt")
              then ok (plain_tokens.sign secret_or_key 20 (payload_of "u2" "ada"))
              else err (unauthorized "Invalid credentials")))
    × (log_in plain_hashes plain_tokens 20 ada after
        ≡ ok (plain_tokens.sign secret_or_key 20 (payload_of "u2" "ada")))
register-login_example =
    register-login plain_hashes plain_tokens "salt" "u2" secret_or_key 10 20 ada (grace ∷ []) refl
      refl refl refl (omega arith)

on_application_bootstrap_lem_example :
    on_application_bootstrap plain_hashes "salt" "u2" (grace ∷ [])
    ≡ ok (
        grace ∷ new_user "u2" "superadmin" (plain_hashes.hash (codes "admin123") "salt") admin ∷ [])
on_application_bootstrap_lem_example =
    on_application_bootstrap_lem plain_hashes "salt" "u2" (grace ∷ []) refl
