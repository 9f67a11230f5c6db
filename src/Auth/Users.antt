-- ===== src/Auth/Users.antt =====
-- `UserService` (src/user/user.service.ts), `AuthService` (src/auth/auth.service.ts) and their
-- controllers. The DTOs have passed the types of src/user/dto/create-user.dto.ts; their other
-- validators are written out. What bcrypt and the database draw, a salt and an identifier, are arguments.
use codeweaknesses.Common.{
  ℕ, String, ◌≡◌, Bool, true, not, ◌&&◌, Option, none, some, List, [], ◌∷◌, find, leb, length,
  or_else, if◌then◌else◌, ◌==◌,
}
use codeweaknesses.Common.Results.{Result, ok, err, bad_request, unauthorized, ◌>>=◌}
use codeweaknesses.Entities.{Text, codes, Role, admin, user, role_value, User}
use codeweaknesses.Judge.Output.{is_filled}
use codeweaknesses.Repository.{user_entity, create, find_all, find_one, update, remove, is_there}
use codeweaknesses.Auth.Guards.{secret_or_key, guarded}
use codeweaknesses.Auth.Tokens.{Jwt}

-- What the program relies on of `bcrypt`.
pub record Bcrypt : Type 0 where
  pub hash : Text → String → String
  pub compare : Text → String → Bool
  pub compare-hash :
      (password : Text) (salt : String) → compare password (hash password salt) ≡ true

pub record CreateUserDto : Type 0 where
  pub name : String
  pub password : Text
  pub role : Option Role

pub record UpdateUserDto : Type 0 where
  pub name : Option String
  pub password : Option Text
  pub role : Option Role

pub record LoginDto : Type 0 where
  pub name : String
  pub password : Text

abbrev pub is_name : String → Bool
is_name name = not (name == "")

abbrev pub is_password : Text → Bool
is_password password = leb 6 (length password)

abbrev pub holds {ℓ} : {A : Type ℓ} → (A → Bool) → Option A → Bool
holds p none = true
holds p (some a) = p a

-- The pipe before a handler.
abbrev pub validated : {A : Type 0} → Bool → Result A → Result A
validated valid handler = if valid then handler else err (bad_request "Bad Request")

abbrev pub new_user : String → String → String → Role → User
new_user id name password_hash role = record {
  id = id;
  name = name;
  password_hash = password_hash;
  role = role;
  deleted_at = none;
}

unfoldable pub find_by_name : String → List User → Option User
find_by_name name users = find (λ u. u.name == name && is_there u) users

-- A user without the hash.
pub record PublicUser : Type 0 where
  pub id : String
  pub name : String
  pub role : Role
  pub deleted_at : Option ℕ

abbrev pub without_hash : User → PublicUser
without_hash u = record { id = u.id; name = u.name; role = u.role; deleted_at = u.deleted_at }

-- `{ access_token }`
unfoldable pub login : Jwt → ℕ → PublicUser → Text
login jwt now u = jwt.sign secret_or_key now (record { sub = u.id; name = u.name; role = u.role })

-- The routes of src/user/user.controller.ts. The role of a user is `user` by default.
pub data UserRequest : Type 0 where
  create_privileged_user : CreateUserDto → UserRequest
  find_all_users : UserRequest
  find_user : String → UserRequest
  update_user : String → UpdateUserDto → UserRequest
  remove_user : String → UserRequest

module _ (bcrypt : Bcrypt) where
  unfoldable pub on_application_bootstrap : String → String → List User → Result (List User)
  unfolding create
  on_application_bootstrap salt new_id users =
      elim (find (λ u. role_value u.role == role_value admin && is_there u) users) [
        | some u ↦ ok users
        | none ↦
            create (new_user new_id "superadmin" (bcrypt.hash (codes "admin123") salt) admin) users
            >>= λ (u, users'). ok users'
      ]

  unfoldable pub validate_user : String → Text → List User → Option PublicUser
  unfolding find_by_name
  validate_user name pass users = elim (find_by_name name users) [
    | none ↦ none
    | some u ↦ if bcrypt.compare pass u.password_hash then some (without_hash u) else none
  ]

  -- `POST auth/register`
  unfoldable pub register :
      Jwt → ℕ → String → String → LoginDto → List User → Result (Text × List User)
  unfolding create login
  register jwt now salt new_id dto users =
      validated (is_name dto.name && is_password dto.password) (
        create (new_user new_id dto.name (bcrypt.hash dto.password salt) user) users
        >>= λ (u, users'). ok (login jwt now (without_hash u), users'))

  -- `POST auth/login`
  unfoldable pub log_in : Jwt → ℕ → LoginDto → List User → Result Text
  unfolding validate_user login
  log_in jwt now dto users =
      validated (is_name dto.name && is_password dto.password)
        (elim (validate_user dto.name dto.password users) [
          | none ↦ err (unauthorized "Invalid credentials")
          | some u ↦ ok (login jwt now u)
        ])

  -- The fields that are given, with the hash of a new password in its place.
  abbrev pub merge_user : String → UpdateUserDto → User → User
  merge_user salt dto u = record u {
    name = or_else dto.name u.name;
    role = or_else dto.role u.role;
    password_hash = elim dto.password [
      | none ↦ u.password_hash
      | some password ↦ if is_filled password then bcrypt.hash password salt else u.password_hash
    ];
  }

  -- What is answered, and the table.
  unfoldable pub handle :
      Jwt
      → ℕ
      → String
      → String
      → Option Text
      → UserRequest
      → List User
      → Result (List User × List User)
  unfolding guarded create find_all find_one update remove
  handle jwt now salt new_id bearer (create_privileged_user dto) users =
      guarded jwt now bearer (admin ∷ []) (
        validated (is_name dto.name && is_password dto.password) (
          create (new_user new_id dto.name (bcrypt.hash dto.password salt) (or_else dto.role user))
            users
          >>= λ (u, users'). ok (u ∷ [], users')))
  handle jwt now salt new_id bearer find_all_users users = ok (find_all users, users)
  handle jwt now salt new_id bearer (find_user id) users =
      find_one id users >>= λ u. ok (u ∷ [], users)
  handle jwt now salt new_id bearer (update_user id dto) users =
      validated (holds is_name dto.name && holds is_password dto.password)
        (update id (merge_user salt dto) users >>= λ (u, users'). ok (u ∷ [], users'))
  handle jwt now salt new_id bearer (remove_user id) users =
      remove now id users >>= λ users'. ok ([], users')
