-- ===== src/Crud/Accounts/Tests.antt =====
-- The theorems on app/crud/user.py and app/security at concrete inputs.
use system_uni.Prelude.{ℕ, some, none, [], ◌∷◌, refl, arith}
use system_uni.Models.{admin, guest, users_ok, User}
use system_uni.Session.{World, Holds}
use system_uni.Security.{create_access_token, get_current_user}
use system_uni.Security.Admission.{Admits, get_current_user-Admits}
use system_uni.Security.Sample.{plain}
use system_uni.Crud.Accounts.{
  UserCreate, UserUpdate, insert_user, write_update, delete_user, update_user,
}
use system_uni.Crud.Accounts.Tokens.{
  Registers, Revokes, insert_user-Registers, write_update-Revokes,
}
use system_uni.Crud.Accounts.{login_user}
use system_uni.Crud.Accounts.Login.{SignsIn, login_user-SignsIn}
use system_uni.Crud.Accounts.Admins.{IsStaffed, Others}
use system_uni.Crud.Accounts.Admins.Removal.{delete_user-keeps_admin}
use system_uni.Crud.Accounts.Admins.Update.{update_user-keeps_admin}
use system_uni.Worker.Sample.{quiet, strict, empty}
use system_uni.Crud.Sample.{ada, world, clear, as_written}

abbrev signup : UserCreate
signup = record {
  username = "bob";
  email = "bob@uni.edu";
  role = guest;
  password = "correct horse";
}

insert_user-Registers_example :
    Holds
      (Registers plain 30 100 as_written clear signup "bob@uni.edu")
      (insert_user quiet strict as_written clear signup world)
insert_user-Registers_example =
    (insert_user-Registers plain 30 100 as_written clear signup "bob@uni.edu" quiet strict
        refl).ensured
      world

abbrev new_password : UserUpdate
new_password = record { username = none; email = none; role = none; password = some "new" }

write_update-Revokes_example :
    Holds (Revokes ada) (write_update quiet strict as_written clear new_password ada world)
write_update-Revokes_example =
    (write_update-Revokes quiet strict as_written clear new_password ada refl).ensured world

get_current_user-Admits_example :
    Holds
      (Admits plain 200 (some (create_access_token plain 30 100 1 0)))
      (get_current_user quiet plain 200 (some (create_access_token plain 30 100 1 0)) world)
get_current_user-Admits_example =
    (get_current_user-Admits quiet plain 200 (some (create_access_token plain 30 100 1 0))).ensured
      world

abbrev root : User
root = record ada { id = 2; username = "root"; email = "root@uni.edu"; role = admin }

abbrev dean : User
dean = record ada { id = 3; username = "dean"; email = "dean@uni.edu"; role = admin }

abbrev two_admins : World
two_admins = record { db = record empty { users = root ∷ dean ∷ [] }; tick = 0 }

two_admins-IsStaffed : IsStaffed two_admins.db
unfolding users_ok
two_admins-IsStaffed = record { accounts_ok = refl; staffed = refl }

quiet-Others : (k n : ℕ) → Others k n quiet
quiet-Others k n = record { staff = λ m d s. s; not_promoted = λ m d e h. h; locked = λ m d e h. h }

delete_user-keeps_admin_example : IsStaffed (delete_user quiet strict 2 two_admins).1.db
delete_user-keeps_admin_example =
    delete_user-keeps_admin quiet strict 2 two_admins (quiet-Others 2 0) two_admins-IsStaffed

abbrev demotion : UserUpdate
demotion = record { username = none; email = none; role = some guest; password = none }

update_user-keeps_admin_example :
    IsStaffed (update_user quiet strict as_written clear demotion 2 two_admins).1.db
update_user-keeps_admin_example =
    update_user-keeps_admin quiet strict as_written clear demotion 2 two_admins (quiet-Others 2 0)
      two_admins-IsStaffed

login_user-SignsIn_example :
    SignsIn quiet plain 30 100 200 as_written clear "ada@uni.edu" "hash"
      (login_user quiet plain 30 100 as_written clear "ada@uni.edu" "hash" world)
login_user-SignsIn_example =
    login_user-SignsIn quiet plain 30 100 200 as_written clear "ada@uni.edu" "hash" world
      (omega arith) (unfold users_ok in refl) refl refl
