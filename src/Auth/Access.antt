-- ===== src/Auth/Access.antt =====
-- Administrators: the first one, and who may add users.
use codeweaknesses.Entities.{Text, user}
use codeweaknesses.Common.{
  length-append, ◌+◌, ◌≤◌, ◌∷◌, inr, inl, Option-cases, eq_refl, ◌⊎◌, length-map, ◌||◌, some,
  length, is_some, ℕ, String, ◌≡◌, refl, Bool, true, false, ◌&&◌, Option, List, [], ◌∷◌, ◌++◌, any,
  find, arith, if◌then◌else◌, ◌==◌,
}
use codeweaknesses.Common.Results.{Result-cases, Result, ok, err, internal}
use codeweaknesses.Entities.{editor, user, Role, Text, codes, admin, role_value, User}
use codeweaknesses.Auth.Accounts.{has_name, save-new}
use codeweaknesses.Auth.Guards.{has_role-eq, guarded-ok, guarded, authenticate, RequestUser}
use codeweaknesses.Auth.Tokens.{Jwt}
use codeweaknesses.Auth.Users.{
  LoginDto, register, new_user, create_privileged_user, find_all_users, find_user, update_user,
  remove_user, merge_user, create_privileged_user, UpdateUserDto, UserRequest, handle, Bcrypt,
  new_user, on_application_bootstrap,
}
use codeweaknesses.Repository.{
  remove, find_one, save, update, is_found, is_there, has_id, user_entity, create,
}

abbrev pub is_admin : User → Bool
is_admin u = role_value u.role == role_value admin && is_there u

any-find : {A : Type 0} (p : A → Bool) (xs : List A) → any p xs ≡ is_some (find p xs)
any-find p [] = refl
any-find p (x ∷ xs) = ground (arith, any-find p xs)

-- When the application starts, with a new identifier: an administrator who is there, and not deleted, is
-- a reason to do nothing; else an administrator `superadmin` is added, unless a row has that name
-- already, be it a deleted one: then the start fails.
pub on_application_bootstrap_lem :
    (bcrypt : Bcrypt) (salt new_id : String) (users : List User)
    → any (has_id new_id) users ≡ false
    → on_application_bootstrap bcrypt salt new_id users ≡ (
        if any is_admin users
        then ok users
        else if any (has_name "superadmin") users
        then err (internal "QueryFailedError")
        else ok (
            users ++ new_user new_id "superadmin" (bcrypt.hash (codes "admin123") salt) admin ∷ []))
unfolding on_application_bootstrap create
on_application_bootstrap_lem bcrypt salt new_id users fresh =
    let superadmin = new_user new_id "superadmin" (bcrypt.hash (codes "admin123") salt) admin in
    ground (arith, any-find is_admin users, save-new superadmin users fresh)

-- A request with a valid token of an administrator.
pub record IsAdmin (jwt : Jwt) (now : ℕ) (bearer : Option Text) : Type 0 where
  pub who : RequestUser
  pub known : authenticate jwt now bearer ≡ ok who
  pub is_admin : who.role ≡ admin

admin_role_of : (r : Role) → (role_value r == role_value admin || false) ≡ true → r ≡ admin
admin_role_of admin h = refl
admin_role_of editor h = cc
admin_role_of user h = cc

guarded-IsAdmin :
    {A : Type 0} (jwt : Jwt) (now : ℕ) (bearer : Option Text) (handler : Result A) (answer : A)
    → guarded jwt now bearer (admin ∷ []) handler ≡ ok answer
    → IsAdmin jwt now bearer
guarded-IsAdmin jwt now bearer handler answer h =
    let (e, (u, known, allowed)) = guarded-ok jwt now bearer (admin ∷ []) handler answer h in
    record {
      who = u;
      known = known;
      is_admin = admin_role_of u.role (ground (arith, has_role-eq u admin));
    }

find-has_id :
    (id : String) (users : List User) (u : User)
    → find (is_found id) users ≡ some u
    → any (has_id u.id) users ≡ true
find-has_id id [] u h = cc
find-has_id id (v ∷ users) u h = ground (arith, find-has_id id users u, eq_refl v.id)

length-save :
    (u : User) (users : List User) (r : User × List User)
    → any (has_id u.id) users ≡ true
    → save u users ≡ ok r
    → length r.1 ≡ length users
unfolding save
length-save u users r there h =
    ground (arith, length-map (λ v. if has_id u.id v then u else v) users)

-- A registration adds a row, or replaces the one with its identifier.
pub register-length :
    (bcrypt : Bcrypt) (jwt : Jwt) (now : ℕ) (salt new_id : String) (dto : LoginDto)
    (users : List User) (r : Text × List User)
    → register bcrypt jwt now salt new_id dto users ≡ ok r
    → (length users ≤ length r.1) × (length r.1 ≤ length users + 1)
unfolding register create save
register-length bcrypt jwt now salt new_id dto users r h =
    let row = new_user new_id dto.name (bcrypt.hash dto.password salt) user in
    ground (
      arith,
      length-map (λ v. if has_id row.id v then row else v) users,
      length-append users (row ∷ []),
    )

length-update :
    (bcrypt : Bcrypt) (salt id : String) (dto : UpdateUserDto) (users : List User)
    (r : User × List User)
    → update id (merge_user bcrypt salt dto) users ≡ ok r
    → length r.1 ≡ length users
unfolding update find_one
length-update bcrypt salt id dto users r h = elim (Option-cases (find (is_found id) users)) [
  | inl e ↦ absurd (ground (arith, e))
  | inr (u, e) ↦
      length-save (merge_user bcrypt salt dto u) users r (find-has_id id users u e)
        (ground (arith, e))
]

-- A request to the controller of users that is answered either has a valid token of an administrator, or
-- leaves the number of the rows as it is.
pub handle-IsAdmin :
    (bcrypt : Bcrypt) (jwt : Jwt) (now : ℕ) (salt new_id : String) (bearer : Option Text)
    (request : UserRequest) (users : List User) (answer after : List User)
    → handle bcrypt jwt now salt new_id bearer request users ≡ ok (answer, after)
    → IsAdmin jwt now bearer ⊎ (length after ≡ length users)
unfolding handle remove find_one
handle-IsAdmin bcrypt jwt now salt new_id bearer (create_privileged_user dto) users answer after h =
    inl (guarded-IsAdmin jwt now bearer _ _ h)
handle-IsAdmin bcrypt jwt now salt new_id bearer find_all_users users answer after h =
    inr (ground arith)
handle-IsAdmin bcrypt jwt now salt new_id bearer (find_user id) users answer after h =
    elim (Result-cases (find_one id users)) [
      | inl (u, e) ↦ inr (ground (arith, e))
      | inr (e', e) ↦ absurd (ground (arith, e))
    ]
handle-IsAdmin bcrypt jwt now salt new_id bearer (update_user id dto) users answer after h =
    elim (Result-cases (update id (merge_user bcrypt salt dto) users)) [
      | inl (r, e) ↦ inr (ground (arith, e, length-update bcrypt salt id dto users r e))
      | inr (e', e) ↦ absurd (ground (arith, e))
    ]
handle-IsAdmin bcrypt jwt now salt new_id bearer (remove_user id) users answer after h =
    elim (Option-cases (find (is_found id) users)) [
      | inl e ↦ absurd (ground (arith, e))
      | inr (u, e) ↦ inr (
          ground (
            arith,
            e,
            length-map (λ v. if has_id id v then user_entity.with_deleted (some now) v else v)
                users,
          ))
    ]
