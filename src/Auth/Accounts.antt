-- ===== src/Auth/Accounts.antt =====
-- What it takes to get an account, and what its tokens open.
use codeweaknesses.Common.{
  ◌∙◌, ℕ, String, ◌≡◌, ◌<◌, ◌+◌, refl, Bool, true, false, ◌&&◌, none, some, List, [], ◌∷◌, ◌++◌,
  any, find, arith, if◌then◌else◌, ◌==◌, eq_refl,
}
use codeweaknesses.Common.Results.{ok, err, unauthorized, internal}
use codeweaknesses.Entities.{Text, user, User}
use codeweaknesses.Leaderboard.Gateway.{identify, authenticated}
use codeweaknesses.Repository.{create, save, has_id, is_there, user_entity, is_refused}
use codeweaknesses.Auth.Guards.{secret_or_key, authenticate}
use codeweaknesses.Auth.Tokens.{Jwt, JwtPayload, one_day, seconds}
use codeweaknesses.Auth.Users.{
  Bcrypt, LoginDto, is_name, is_password, new_user, find_by_name, validate_user, login, log_in,
  register, validated,
}

abbrev pub is_valid : LoginDto → Bool
is_valid dto = is_name dto.name && is_password dto.password

abbrev pub has_name : String → User → Bool
has_name name u = u.name == name

-- What a registered user is known by.
abbrev pub payload_of : String → String → JwtPayload
payload_of id name = record { sub = id; name = name; role = user }

find-last :
    {A : Type 0} (p : A → Bool) (xs : List A) (x : A)
    → any p xs ≡ false
    → find p (xs ++ x ∷ []) ≡ (if p x then some x else none)
find-last p [] x h = refl
find-last p (y ∷ xs) x h = ground (arith, find-last p xs x)

any-refused :
    (u : User) (users : List User)
    → any (has_id u.id) users ≡ false
    → any (is_refused u) users ≡ any (has_name u.name) users
any-refused u [] h = refl
any-refused u (v ∷ users) h = ground (arith, any-refused u users)

-- A row with a new identifier is refused for its name only.
pub save-new :
    (u : User) (users : List User)
    → any (has_id u.id) users ≡ false
    → save u users ≡ (
        if any (has_name u.name) users
        then err (internal "QueryFailedError")
        else ok (u, users ++ u ∷ []))
unfolding save
save-new u users h = ground (arith, any-refused u users h)

any-there :
    (name : String) (users : List User)
    → any (has_name name) users ≡ false
    → any (λ u. u.name == name && is_there u) users ≡ false
any-there name [] h = refl
any-there name (u ∷ users) h = ground (arith, any-there name users)

find_by_name-last :
    (id name password_hash : String) (users : List User)
    → any (has_name name) users ≡ false
    → find_by_name name (users ++ new_user id name password_hash user ∷ [])
      ≡ some (new_user id name password_hash user)
unfolding find_by_name
find_by_name-last id name password_hash users h =
    find-last (λ u. u.name == name && is_there u) users (new_user id name password_hash user)
      (any-there name users h)
    ∙ ground (arith, eq_refl name)

pub authenticate-sign :
    (jwt : Jwt) (now later : ℕ) (id name : String)
    → seconds later < seconds now + one_day
    → authenticate jwt later (some (jwt.sign secret_or_key now (payload_of id name)))
      ≡ ok (record { user_id = id; name = name; role = user })
unfolding authenticate
authenticate-sign jwt now later id name h =
    ground (arith, jwt.verify-sign secret_or_key now later (payload_of id name) h)

identify-sign :
    (jwt : Jwt) (secret : String) (now later : ℕ) (id name : String)
    → secret ≡ secret_or_key
    → seconds later < seconds now + one_day
    → identify jwt secret later (record {
      auth_token = some (jwt.sign secret_or_key now (payload_of id name));
      authorization = none;
      query_token = none;
    })
      ≡ authenticated id name user
unfolding identify
identify-sign jwt secret now later id name same h = ground (
  arith,
  same,
  jwt.verify-sign secret_or_key now later (payload_of id name) h,
  jwt.sign-filled secret_or_key now (payload_of id name),
)

module _ (bcrypt : Bcrypt) (jwt : Jwt) where
  log_in-last :
      (now : ℕ) (salt id name : String) (password attempt : Text) (users : List User)
      → any (has_name name) users ≡ false
      → log_in bcrypt jwt now
          (record { name = name; password = attempt })
          (users ++ new_user id name (bcrypt.hash password salt) user ∷ [])
        ≡ validated (is_name name && is_password attempt) (
            if bcrypt.compare attempt (bcrypt.hash password salt)
            then ok (jwt.sign secret_or_key now (payload_of id name))
            else err (unauthorized "Invalid credentials"))
  unfolding log_in validate_user login
  log_in-last now salt id name password attempt users h =
      ground (arith, find_by_name-last id name (bcrypt.hash password salt) users h)

  -- A valid registration under a name that no row has, with an identifier that none has, is taken.
  -- For a day, counted in whole seconds, its token lets in to the guarded routes as that user with
  -- the role `user`, and, if the gateway is configured with the secret that tokens are signed with, to
  -- the gateway. Logging in under the name gives such a token
  -- for exactly the valid passwords that bcrypt accepts, the registered one among them.
  pub register-login :
      (salt new_id gateway_secret : String) (now later : ℕ) (dto : LoginDto) (users : List User)
      → is_valid dto ≡ true
      → any (has_name dto.name) users ≡ false
      → any (has_id new_id) users ≡ false
      → gateway_secret ≡ secret_or_key
      → seconds later < seconds now + one_day
      → (token : Text) × (after : List User) × (register bcrypt jwt now salt new_id dto users
          ≡ ok (token, after))
        × (authenticate jwt later (some token)
            ≡ ok (record { user_id = new_id; name = dto.name; role = user }))
        × (identify jwt gateway_secret later
              (record { auth_token = some token; authorization = none; query_token = none })
            ≡ authenticated new_id dto.name user)
        × ((attempt : Text)
            → log_in bcrypt jwt later (record { name = dto.name; password = attempt }) after
              ≡ validated (is_password attempt) (
                  if bcrypt.compare attempt (bcrypt.hash dto.password salt)
                  then ok (jwt.sign secret_or_key later (payload_of new_id dto.name))
                  else err (unauthorized "Invalid credentials")))
        × (log_in bcrypt jwt later dto after
            ≡ ok (jwt.sign secret_or_key later (payload_of new_id dto.name)))
  unfolding register create login
  register-login salt new_id gateway_secret now later dto users valid new_name fresh same h = (
    jwt.sign secret_or_key now (payload_of new_id dto.name),
    users ++ new_user new_id dto.name (bcrypt.hash dto.password salt) user ∷ [],
    ground (
      arith,
      save-new (new_user new_id dto.name (bcrypt.hash dto.password salt) user) users fresh,
    ),
    authenticate-sign jwt now later new_id dto.name h,
    identify-sign jwt gateway_secret now later new_id dto.name same h,
    λ attempt.
        ground (arith, log_in-last later salt new_id dto.name dto.password attempt users new_name),
    ground (
      arith,
      log_in-last later salt new_id dto.name dto.password dto.password users new_name,
      bcrypt.compare-hash dto.password salt,
    ),
  )
