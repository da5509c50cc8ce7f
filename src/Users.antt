-- ===== src/Users.antt =====
-- Users and login: src/modules/admin/user/service.rs with the handlers of
-- src/modules/admin/user/routes.rs, src/modules/auth/service.rs with the handler of
-- src/modules/auth/routes.rs, and `change_user_password`, `update_user_info` and
-- `save_user_avatar_into_database` of src/modules/user/service.rs. The hashing and verification of
-- passwords, the encoding of tokens, the check of an e-mail address and the test for a decimal digit
-- are parameters.
pub mod Admins
pub mod Login
use Prim.Native.Char.{Char, code}
use Prim.Native.String.{[] as empty_text, ◌∷◌ as text_cons}
use cqwu_achievement_system.Prelude.{
  ℕ, zero, suc, ◌+◌, String, Bool, true, false, not, ◌&&◌, Option, none, some, List, [], ◌∷◌, ◌++◌,
  str_eq, ◌==◌, leb, any, keep, if◌then◌else◌,
}
use cqwu_achievement_system.Effect.{
  Result, ok, err, Action, Fault, next_fault, later_faults, under, pure, raise, lift, ◌>>=◌, ◌>>◌,
}
use cqwu_achievement_system.Errors.{
  AppError, FieldErrors, user_already_exists, data_not_found, forbidden, unexpected_error,
  login_failed,
}
use cqwu_achievement_system.Access.{UserRole, admin_role, user_role}
use cqwu_achievement_system.Access.Guard.{Claims}
use cqwu_achievement_system.Templates.{coalesce_null}
use cqwu_achievement_system.Templates.Handlers.{
  text_length, within, if_given, field_errors, or_validation_error,
}

pub record User : Type 0 where
  pub user_id : String
  pub username : String
  pub nickname : String
  pub password_hash : String
  pub role : UserRole
  pub is_active : Bool
  pub email : Option String
  pub phone : Option String
  pub major : Option String
  pub college : Option String
  pub avatar_key : Option String
  pub created_at : ℕ

-- The table `sys_user` with the clock in seconds, the ids drawn and the faults of the statements.
pub record Accounts : Type 0 where
  pub users : List User
  pub now : ℕ
  pub drawn : ℕ
  pub faults : List Fault

abbrev pub Managed : Type 0 → Type 0
Managed A = Action Accounts AppError A

abbrev pub db_error : AppError
db_error = unexpected_error "database"

-- What a statement gives: a result or an error, and the table.
abbrev pub Statement : Type 0 → Type 0
Statement A = List User → Result AppError A × List User

abbrev pub run_on_table : {A : Type 0} → Statement A → Managed A
run_on_table run w = let (r, us) = run w.users in (r, record w { users = us })

unfoldable pub statement : {A : Type 0} → Statement A → Managed A
statement run w =
    under db_error (run_on_table run) (next_fault w.faults)
      (record w { faults = later_faults w.faults })

pub record RegisterUserRequest : Type 0 where
  pub username : String
  pub nickname : String
  pub password : String
  pub role : UserRole
  pub email : Option String
  pub phone : Option String
  pub major : Option String
  pub college : Option String

-- Nine digits and nothing after them.
unfoldable pub digits : (Char → Bool) → ℕ → String → Bool
digits is_digit zero empty_text = true
digits is_digit zero (text_cons c text) = false
digits is_digit (suc n) empty_text = false
digits is_digit (suc n) (text_cons c text) = is_digit c && digits is_digit n text

-- PHONE_NUMBER
abbrev pub is_phone : (Char → Bool) → String → Bool
is_phone is_digit (text_cons c (text_cons d text)) =
    (code c == b'1') && (leb b'3' (code d) && leb (code d) b'9') && digits is_digit 9 text
is_phone is_digit _ = false

unfoldable pub validate_register :
    (String → Bool) → (Char → Bool) → RegisterUserRequest → Result AppError Unit
unfolding text_length digits
validate_register is_email is_digit req = or_validation_error (
    field_errors "username" "用户名必须在3-50个字符之间" (within 3 50 req.username)
    ++ field_errors "nickname" "昵称必须在3-50个字符之间" (within 3 50 req.nickname)
    ++ field_errors "password" "密码必须在6-100个字符之间" (within 6 100 req.password)
    ++ field_errors "email" "邮箱格式不正确" (if_given is_email req.email)
    ++ field_errors "phone" "请提供合法的中国大陆手机号" (if_given (is_phone is_digit) req.phone)
    ++ field_errors "major" "专业名称不能超过50个字符" (if_given (within 0 50) req.major)
    ++ field_errors "college" "学院名称不能超过50个字符" (if_given (within 0 50) req.college))

-- `fetch_optional` on the user of a name
unfoldable pub user_named : String → List User → Option User
user_named name [] = none
user_named name (u ∷ us) = if str_eq u.username name then some u else user_named name us

abbrev pub has_id : String → List User → Bool
has_id id us = any (λ (u : User). str_eq u.user_id id) us

abbrev pub new_user : String → RegisterUserRequest → String → ℕ → User
new_user id req hash now = record {
  user_id = id;
  username = req.username;
  nickname = req.nickname;
  password_hash = hash;
  role = req.role;
  is_active = true;
  email = req.email;
  phone = req.phone;
  major = req.major;
  college = req.college;
  avatar_key = none;
  created_at = now;
}

abbrev pub added : Option User → Bool → User → Statement User
added (some v) taken u us = (err user_already_exists, us)
added none true u us = (err user_already_exists, us)
added none false u us = (ok u, u ∷ us)

-- INSERT INTO sys_user: neither the name nor the id is taken.
unfoldable pub insert_user : User → Statement User
unfolding user_named
insert_user u us = added (user_named u.username us) (has_id u.user_id us) u us

-- UPDATE sys_user ... WHERE user_id = id
unfoldable pub update_user : String → (User → User) → List User → List User
update_user id f [] = []
update_user id f (u ∷ us) = (if str_eq u.user_id id then f u else u) ∷ update_user id f us

-- An UPDATE of the user of an id; whether a row is affected
unfoldable pub update_by_id : String → (User → User) → Statement Bool
unfolding update_user
update_by_id id f us = (ok (has_id id us), update_user id f us)

-- DELETE FROM sys_user; whether a row is affected
unfoldable pub delete_by_id : String → Statement Bool
delete_by_id id us = (ok (has_id id us), keep (λ (u : User). not (str_eq u.user_id id)) us)

unfoldable pub store_user : (ℕ → String) → RegisterUserRequest → String → Managed User
unfolding statement insert_user
store_user uuid req hash w =
    statement (insert_user (new_user (uuid w.drawn) req hash w.now))
      (record w { drawn = suc w.drawn })

abbrev pub or_no_user : Bool → Managed Unit
or_no_user false = raise (data_not_found "用户不存在")
or_no_user true = pure tt

abbrev pub with_active : Bool → User → User
with_active b u = record u { is_active = b }

abbrev pub with_hash : String → User → User
with_hash hash u = record u { password_hash = hash }

unfoldable pub modify_user_status : String → Bool → Managed Unit
unfolding statement update_by_id
modify_user_status id is_active = statement (update_by_id id (with_active is_active)) >>= or_no_user

unfoldable pub admin_change_user_password : String → String → Managed Unit
unfolding statement update_by_id
admin_change_user_password id hash = statement (update_by_id id (with_hash hash)) >>= or_no_user

unfoldable pub delete_user : String → Managed Unit
unfolding statement delete_by_id
delete_user id = statement (delete_by_id id) >>= or_no_user

-- `hash_password` and `verify_password`; a hash is made with the next salt.
pub record Hashing : Type 0 where
  pub hash_password : ℕ → String → Result String String
  pub verify_password : String → String → Result String Unit

abbrev pub hashed : Result String String → Result AppError String
hashed (ok h) = ok h
hashed (err e) = err (unexpected_error e)

abbrev pub hash_next : Hashing → String → Managed String
hash_next hashing password w =
    (hashed (hashing.hash_password w.drawn password), record w { drawn = suc w.drawn })

unfoldable pub create_user_handler :
    Hashing → (String → Bool) → (Char → Bool) → (ℕ → String) → RegisterUserRequest → Managed User
unfolding validate_register store_user
create_user_handler hashing is_email is_digit uuid req = do
  lift (validate_register is_email is_digit req)
  hash ← hash_next hashing req.password
  store_user uuid req hash

-- The requests that change a user, by the user of the id `sub`
unfoldable pub modify_user_status_handler : String → String → Bool → Managed Unit
unfolding modify_user_status
modify_user_status_handler sub id is_active =
    if str_eq sub id then raise (forbidden "不能修改自己的用户状态") else modify_user_status id is_active

unfoldable pub admin_change_user_password_handler : Hashing → String → String → Managed Unit
unfolding admin_change_user_password text_length
admin_change_user_password_handler hashing id password = do
  lift
      (or_validation_error (field_errors "new_password" "新密码必须在6-100个字符之间" (within 6 100 password)))
  hash ← hash_next hashing password
  admin_change_user_password id hash

unfoldable pub admin_delete_user_handler : String → String → Managed Unit
unfolding delete_user
admin_delete_user_handler sub id =
    if str_eq sub id then raise (forbidden "不能删除自己的账户") else delete_user id

-- The statements of users about themselves, whose count of affected rows is not read
unfoldable pub change_user_password : Hashing → String → String → Managed Unit
unfolding statement update_by_id
change_user_password hashing id password = do
  hash ← hash_next hashing password
  statement (update_by_id id (with_hash hash))
  pure tt

abbrev pub with_info : Option String → Option String → User → User
with_info email phone u = record u {
  email = coalesce_null email u.email;
  phone = coalesce_null phone u.phone;
}

unfoldable pub update_user_info : String → Option String → Option String → Managed Unit
unfolding statement update_by_id
update_user_info id email phone = statement (update_by_id id (with_info email phone)) >> pure tt

abbrev pub with_avatar : String → User → User
with_avatar key u = record u { avatar_key = some key }

unfoldable pub save_user_avatar_into_database : String → String → Managed Unit
unfolding statement update_by_id
save_user_avatar_into_database id key = statement (update_by_id id (with_avatar key)) >> pure tt
