-- ===== src/Crud/Accounts.antt =====
-- app/crud/user.py. `str.lower` and the password hashing are arguments; a hash is the one that the
-- call draws its salt for.
pub mod Admins
pub mod Tokens
pub mod Login
mod Tests
use system_uni.Prelude.{
  ℕ, ◌+◌, ◌≡◌, String, Option, none, some, Bool, true, false, not, ◌&&◌, ◌||◌, List, [], ◌∷◌, ◌++◌,
  ◌==◌, str_eq, leb, or_else, if◌then◌else◌, find?, select_where, update_where, any, is_none,
  length, map,
}
use system_uni.Models.{Db, User, Student, UserRole, admin, guest, Postgres}
use system_uni.Session.{Session, Moment, query, pure, ◌>>=◌}
use system_uni.Security.{Jwt, create_access_token, get_user, same_role}
use system_uni.Crud.Columns.{net, page}
use system_uni.Crud.Response.{
  Response, success, http_error, Commit, commit, refreshed, answer, answer_delete,
}

-- pwdlib: a password verifies against its own hash.
pub record Passwords : Type 0 where
  pub hash : String → String
  pub verify : String → String → Bool
  pub verify-hash : (p : String) → verify p (hash p) ≡ true

-- `UserCreate`; `UserRegister` has no role.
pub record UserCreate : Type 0 where
  pub username : String
  pub email : String
  pub role : UserRole
  pub password : String

-- `UserUpdate`; `UserSelfUpdate` has no role.
pub record UserUpdate : Type 0 where
  pub username : Option String
  pub email : Option String
  pub role : Option UserRole
  pub password : Option String

abbrev pub is_admin : User → Bool
is_admin u = same_role u.role admin

abbrev pub admins : Db → List User
admins d = select_where is_admin d.users

abbrev pub stays_admin : Option UserRole → Bool
stays_admin none = false
stays_admin (some r) = same_role r admin

unfoldable pub admit_removal : List User → Response (Unit {0})
admit_removal xs =
    if leb (length xs) 1 then http_error 400 "Cannot remove the last admin account" else success tt

module _ (env : ℕ → Moment) where
  -- The select is FOR UPDATE: the admins stay locked until the transaction ends.
  unfoldable pub ensure_admin_remains : User → Option UserRole → Session (Response (Unit {0}))
  ensure_admin_remains u next_role =
      if not (is_admin u) || stays_admin next_role
      then pure (success tt)
      else query env (λ d. admit_removal (admins d))

abbrev pub new_user : (String → String) → Passwords → UserCreate → Moment → User
new_user lower passwords u m = record {
  id = m.serial;
  username = u.username;
  email = lower u.email;
  role = u.role;
  created_at = m.now;
  password_hash = passwords.hash u.password;
  token_version = 0;
}

abbrev pub with_user : User → Db → Db
with_user u d = record d { users = d.users ++ u ∷ [] }

module _ (env : ℕ → Moment) (pg : Postgres) (lower : String → String) (passwords : Passwords) where
  unfoldable pub insert_user : UserCreate → Session (Commit User)
  insert_user u =
      commit env pg
        (λ m d. some (new_user lower passwords u m, with_user (new_user lower passwords u m) d))

  unfoldable pub create_user : UserCreate → Session (Response User)
  create_user u =
      insert_user u
      >>= answer (λ (row : User). query env (get_user row.id) >>= refreshed)
          "Username or email already exists" "Invalid user input data"

  unfoldable pub register_user : String → String → String → Session (Response User)
  register_user username email password =
      create_user (record { username = username; email = email; role = guest; password = password })

-- The columns that an update writes.
pub record UserColumns : Type 0 where
  pub username : Option String
  pub email : Option String
  pub password_hash : Option String
  pub role : Option UserRole
  pub token_version : Option ℕ

abbrev pub given : {A B : Type 0} → (A → B) → Option A → Option B
given f none = none
given f (some a) = some (f a)

abbrev pub invalidates_tokens : UserUpdate → Bool
invalidates_tokens c = not (is_none c.password) || not (is_none c.role)

-- The assignments of the handler to the row `u` that it loaded.
unfoldable pub assigned : (String → String) → Passwords → UserUpdate → User → UserColumns
assigned lower passwords c u = record {
  username = net str_eq c.username u.username;
  email = net str_eq (given lower c.email) u.email;
  password_hash = net str_eq (given passwords.hash c.password) u.password_hash;
  role = net same_role c.role u.role;
  token_version = if invalidates_tokens c then some (u.token_version + 1) else none;
}

abbrev pub no_column : UserColumns → Bool
no_column c =
    is_none c.username
    && (is_none c.email && (is_none c.password_hash && (is_none c.role && is_none c.token_version)))

unfoldable pub write_user : UserColumns → User → User
write_user c u = record u {
  username = or_else c.username u.username;
  email = or_else c.email u.email;
  password_hash = or_else c.password_hash u.password_hash;
  role = or_else c.role u.role;
  token_version = or_else c.token_version u.token_version;
}

-- `UPDATE users SET ... WHERE id = ...`, if a column changed.
unfoldable pub flush_user : ℕ → UserColumns → Db → Option (Unit {0} × Db)
flush_user k c d =
    if no_column c
    then some (tt, d)
    else if any (λ (u : User). u.id == k) d.users
    then some
        (tt, record d { users = update_where (λ (u : User). u.id == k) (write_user c) d.users })
    else none

module _ (env : ℕ → Moment) (pg : Postgres) (lower : String → String) (passwords : Passwords) where
  unfoldable pub write_update : UserUpdate → User → Session (Commit (Unit {0}))
  write_update c u = commit env pg (λ m d. flush_user u.id (assigned lower passwords c u) d)

  unfoldable pub update_loaded : UserUpdate → User → Session (Response User)
  update_loaded c u =
      write_update c u
      >>= answer (λ (done : Unit {0}). query env (get_user u.id) >>= refreshed)
          "Username or email already exists" "Invalid user input data"

  unfoldable pub update_admitted : UserUpdate → User → Response (Unit {0}) → Session (Response User)
  update_admitted c u (http_error code detail) = pure (http_error code detail)
  update_admitted c u (success done) = update_loaded c u

  unfoldable pub found_for_update : UserUpdate → Option User → Session (Response User)
  found_for_update c none = pure (http_error 404 "User not found")
  found_for_update c (some u) = ensure_admin_remains env u c.role >>= update_admitted c u

  unfoldable pub update_user : UserUpdate → ℕ → Session (Response User)
  update_user c user_id = query env (get_user user_id) >>= found_for_update c

  -- For the user that the request was authenticated as; a self update has no role.
  unfoldable pub update_user_me :
      Option String → Option String → Option String → User → Session (Response User)
  update_user_me username email password u =
      update_loaded
        (record { username = username; email = email; role = none; password = password }) u

-- Without `passive_deletes` SQLAlchemy first unlinks the student of the user.
abbrev pub unlink : Student → Student
unlink s = record s { user_id = none; version_id = s.version_id + 1 }

abbrev pub linked_to : ℕ → Student → Bool
linked_to k s = elim s.user_id [ none ↦ false | some u ↦ u == k ]

abbrev pub without_user : ℕ → Db → Db
without_user k d = record d {
  users = select_where (λ (u : User). not (u.id == k)) d.users;
  students = update_where (linked_to k) unlink d.students;
}

module _ (env : ℕ → Moment) (pg : Postgres) where
  unfoldable pub delete_admitted : User → Response (Unit {0}) → Session (Response String)
  delete_admitted u (http_error code detail) = pure (http_error code detail)
  delete_admitted u (success done) =
      commit env pg (λ m d. some (tt, without_user u.id d))
      >>= answer_delete (pure (success "User deleted successfully"))
          "Cannot delete user due to existing relationships"

  unfoldable pub found_for_delete : Option User → Session (Response String)
  found_for_delete none = pure (http_error 404 "User not found")
  found_for_delete (some u) = ensure_admin_remains env u none >>= delete_admitted u

  unfoldable pub delete_user : ℕ → Session (Response String)
  delete_user user_id = query env (get_user user_id) >>= found_for_delete

unfoldable pub user_or_404 : Option User → Response User
user_or_404 none = http_error 404 "User not found"
user_or_404 (some u) = success u

abbrev pub find_email : String → Db → Option User
find_email email d = find? (λ (u : User). str_eq u.email email) d.users

-- The token is issued at `now`. Where there is no user a dummy hash is verified, for the time alone.
unfoldable pub check_login :
    {Token : Type 0} → Jwt Token → ℕ → ℕ → Passwords → String → Option User → Response Token
check_login jwt expire_minutes now passwords password none =
    http_error 401 "user or password incorrect"
check_login jwt expire_minutes now passwords password (some u) =
    if passwords.verify password u.password_hash
    then success (create_access_token jwt expire_minutes now u.id u.token_version)
    else http_error 401 "user or password incorrect"

module _ (env : ℕ → Moment) where
  unfoldable pub read_user : ℕ → Session (Response User)
  read_user user_id = query env (λ d. user_or_404 (get_user user_id d))

  unfoldable pub read_users : ℕ → ℕ → Session (List User)
  read_users skip limit = query env (λ d. page (λ (u : User). u.id) skip limit d.users)

  unfoldable pub login_user :
      {Token : Type 0}
      → Jwt Token
      → ℕ
      → ℕ
      → (String → String)
      → Passwords
      → String
      → String
      → Session (Response Token)
  login_user jwt expire_minutes now lower passwords email password =
      query env
        (λ d. check_login jwt expire_minutes now passwords password (find_email (lower email) d))
