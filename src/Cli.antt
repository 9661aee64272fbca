-- ===== src/Cli.antt =====
-- app/cli.py: the command `create-admin`. The arguments of the command line, the environment
-- variables, the terminal and what happens at the prompt are arguments; the result is the exit code,
-- unless the prompt is interrupted.
pub mod Outcomes
pub mod Idempotence
pub mod Login
use system_uni.Prelude.{
  ℕ, String, Option, none, some, Bool, true, false, not, ◌&&◌, ◌||◌, List, [], ◌∷◌, str_eq, is_none,
  select_where, if◌then◌else◌,
}
use system_uni.Models.{Db, User, UserRole, admin, Postgres}
use system_uni.Session.{
  Session, Moment, Exn, pure, raise, try_except, query, ◌>>=◌, sqlalchemy_error,
}
use system_uni.Security.{get_user}
use system_uni.Crud.Accounts.{Passwords, with_user}
use system_uni.Crud.Response.{
  Commit, written, integrity_failed, data_failed, stale, Response, success, http_error, commit,
}

-- The truth value of a string that may be missing.
abbrev pub is_filled : Option String → Bool
is_filled none = false
is_filled (some text) = not (str_eq text "")

-- `a or b`.
abbrev pub otherwise : Option String → Option String → Option String
otherwise a b = if is_filled a then a else b

-- What `getpass` does: it returns, raises an exception, or raises KeyboardInterrupt, which is no
-- `Exception`.
pub data Prompt : Type 0 where
  entered : String → Prompt
  failed interrupted : Prompt

-- What a run of the command can read.
pub record Terminal : Type 0 where
  pub email : Option String
  pub username : Option String
  pub password : Option String
  pub admin_email : Option String
  pub admin_username : Option String
  pub admin_password : Option String
  pub isatty : Bool
  pub prompt : Prompt

-- A value, or the KeyboardInterrupt that `except Exception` lets through.
pub data Read (A : Type 0) : Type 0 where
  value : A → Read A
  keyboard_interrupt : Read A

abbrev pub typed : Prompt → Read (Option String)
typed (entered password) = value (some password)
typed failed = value none
typed interrupted = keyboard_interrupt

abbrev pub resolved_password : Terminal → Read (Option String)
resolved_password t =
    let password = otherwise t.password t.admin_password in
    if not (is_filled password) && t.isatty then typed t.prompt else value password

pub record Credentials : Type 0 where
  pub email : String
  pub username : String
  pub password : String

abbrev pub complete : Option String → Option String → Option String → Option Credentials
complete (some email) (some username) (some password) =
    if not (str_eq email "") && (not (str_eq username "") && not (str_eq password ""))
    then some (record { email = email; username = username; password = password })
    else none
complete _ _ _ = none

-- The three values, unless one is missing.
unfoldable pub resolve : Terminal → Read (Option Credentials)
resolve t = elim (resolved_password t) [
  | keyboard_interrupt ↦ keyboard_interrupt
  | value password ↦
      value (
        complete (otherwise t.email t.admin_email) (otherwise t.username t.admin_username) password)
]

abbrev pub clashes : Credentials → User → Bool
clashes c u = str_eq u.email c.email || str_eq u.username c.username

abbrev pub matching : Credentials → Db → List User
matching c d = select_where (clashes c) d.users

-- `scalar_one_or_none`, which raises on a second row.
unfoldable pub scalar_one_or_none : List User → Session (Option User)
scalar_one_or_none [] = pure none
scalar_one_or_none (u ∷ []) = pure (some u)
scalar_one_or_none (u ∷ v ∷ us) = raise (sqlalchemy_error [])

-- The address is stored as it is given.
abbrev pub new_admin : Passwords → Credentials → Moment → User
new_admin passwords c m = record {
  id = m.serial;
  username = c.username;
  email = c.email;
  role = admin;
  created_at = m.now;
  password_hash = passwords.hash c.password;
  token_version = 0;
}

-- `db.refresh(new_admin)`.
unfoldable pub shown : Option User → Session ℕ
shown none = raise (sqlalchemy_error [])
shown (some u) = pure 0

unfoldable pub after_commit : (ℕ → Moment) → Commit User → Session ℕ
after_commit env (written u) = query env (get_user u.id) >>= shown
after_commit env integrity_failed = raise (sqlalchemy_error [])
after_commit env data_failed = raise (sqlalchemy_error [])
after_commit env stale = raise (sqlalchemy_error [])

-- `db.rollback()` can fail like any other statement; nothing of the session is uncommitted in `Db`.
unfoldable pub rollback : (ℕ → Moment) → Session (Unit {0})
rollback env = query env (λ d. tt)

-- `except Exception`: an error of the rollback leaves the function.
unfoldable pub exit_1 : (ℕ → Moment) → Exn → Session ℕ
exit_1 env e = rollback env >>= λ done. pure 1

module _ (env : ℕ → Moment) (pg : Postgres) (passwords : Passwords) where
  unfoldable pub insert_admin : Credentials → Session (Commit User)
  insert_admin c =
      commit env pg (λ m d. some (new_admin passwords c m, with_user (new_admin passwords c m) d))

  unfoldable pub unless_existing : Credentials → Option User → Session ℕ
  unless_existing c (some u) = pure 0
  unless_existing c none = insert_admin c >>= after_commit env

  -- The `try` statement, with the argument of `sys.exit`; SystemExit is no `Exception`. Closing the
  -- session is left out.
  unfoldable pub ensure_admin : Credentials → Session ℕ
  ensure_admin c =
      try_except (query env (matching c) >>= scalar_one_or_none >>= unless_existing c) (exit_1 env)

  abbrev pub ensure_resolved : Read (Option Credentials) → Session (Read ℕ)
  ensure_resolved keyboard_interrupt = pure keyboard_interrupt
  ensure_resolved (value none) = pure (value 1)
  ensure_resolved (value (some c)) = ensure_admin c >>= λ code. pure (value code)

  unfoldable pub create_admin : Terminal → Session (Read ℕ)
  create_admin t = ensure_resolved (resolve t)
