-- ===== src/Tests/Users.antt =====
-- The theorems on users and login, at concrete inputs.
use cqwu_achievement_system.Prelude.{
  ◌<◌, String, Bool, true, false, none, some, List, [], ◌∷◌, str_eq, ◌≡◌, refl, arith,
  if◌then◌else◌, ap, sym, ◌&&◌, ◌==◌, and_left, and_right, eq_iff, ==→eq,
}
use cqwu_achievement_system.Effect.{Result, ok, err, reply_lost, works, pure}
use cqwu_achievement_system.Access.{AccessDb, UserRole, admin_role, user_role}
use cqwu_achievement_system.Access.Guard.{Claims, JwtErrorKind, mw_authentication}
use cqwu_achievement_system.Users.{User, Accounts, Hashing, user_named}
use cqwu_achievement_system.Users.Admins.{
  Request, change_status, delete_account, serve_all, some_admin, some_admin-serve_all,
}
use cqwu_achievement_system.Users.Login.{
  JwtConfig, claims_of, login_user_handler, with_token, after_token, login-Verified,
}

abbrev root : User
root = record {
  user_id = "1";
  username = "root";
  nickname = "Root";
  password_hash = "secret";
  role = admin_role;
  is_active = true;
  email = none;
  phone = none;
  major = none;
  college = none;
  avatar_key = none;
  created_at = 0;
}

abbrev second_admin : User
second_admin = record root { user_id = "2"; username = "second" }

abbrev accounts : Accounts
accounts = record {
  users = root ∷ second_admin ∷ [];
  now = 100;
  drawn = 0;
  faults = works ∷ reply_lost ∷ [];
}

-- A hash that is the password itself.
abbrev hashing : Hashing
hashing = record {
  hash_password = λ salt password. ok password;
  verify_password = λ password hash. if str_eq password hash then ok tt else err "wrong";
}

abbrev requests : List (String × Request)
requests = ("1", change_status "2" false) ∷ ("1", delete_account "1") ∷ []

some_admin-serve_all_example :
    some_admin (serve_all hashing (λ t. true) (λ c. true) (λ n. "3") requests accounts).users ≡ true
unfolding cqwu_achievement_system.Users.modify_user_status_handler
some_admin-serve_all_example =
    some_admin-serve_all hashing (λ t. true) (λ c. true) (λ n. "3") requests accounts refl
      (refl, (refl, tt))

abbrev is_root : UserRole → Bool
is_root admin_role = true
is_root user_role = false

-- The claims of the first login of the root user.
abbrev first_claims : Claims
first_claims = record { sub = "1"; exp = 160; iat = 100; username = "root"; role = admin_role }

abbrev is_first : Claims → Bool
is_first c =
    str_eq c.sub "1"
    && (c.exp == 160)
    && (c.iat == 100)
    && str_eq c.username "root"
    && is_root c.role

-- A library that makes a token for these claims only.
abbrev config : JwtConfig
config = record {
  encode = λ c. if is_first c then ok "token" else err "other claims";
  expiration = 60;
}

abbrev verify : String → Result JwtErrorKind Claims
verify t = ok first_claims

role_eq : (r : UserRole) → is_root r ≡ true → admin_role ≡ r
role_eq admin_role h = refl
role_eq user_role h = absurd (cc h)

first_eq : (c : Claims) → is_first c ≡ true → first_claims ≡ c
first_eq c h =
    let a =
      and_left (str_eq c.sub "1" && (c.exp == 160) && (c.iat == 100) && str_eq c.username "root")
        (is_root c.role) h in
    let b =
      and_left (str_eq c.sub "1" && (c.exp == 160) && (c.iat == 100)) (str_eq c.username "root")
        a in
    let d = and_left (str_eq c.sub "1" && (c.exp == 160)) (c.iat == 100) b in
    let sub = (eq_iff c.sub "1").0 (and_left (str_eq c.sub "1") (c.exp == 160) d) in
    let exp = ==→eq c.exp 160 (and_right (str_eq c.sub "1") (c.exp == 160) d) in
    let iat = ==→eq c.iat 100 (and_right (str_eq c.sub "1" && (c.exp == 160)) (c.iat == 100) b) in
    let name = (eq_iff c.username "root").0 (
      and_right (str_eq c.sub "1" && (c.exp == 160) && (c.iat == 100)) (str_eq c.username "root")
        a) in
    let role = role_eq c.role (
      and_right (str_eq c.sub "1" && (c.exp == 160) && (c.iat == 100) && str_eq c.username "root")
        (is_root c.role) h) in
    λ i. record {
      sub = sym sub i;
      exp = sym exp i;
      iat = sym iat i;
      username = sym name i;
      role = role i;
    }

promise : (c : Claims) (t : String) → 120 < c.exp → config.encode c ≡ ok t → verify t ≡ ok c
promise c t h e = by_test (is_first c) refl e
  where
    by_test :
        (b : Bool)
        → is_first c ≡ b
        → ◌≡◌ {A = Result String String} (if b then ok "token" else err "other claims") (ok t)
        → verify t ≡ ok c
    by_test true k e = ap (λ x. ok x) (first_eq c k)
    by_test false k e = absurd (cc e)

abbrev after_login : Accounts
after_login = record accounts { faults = reply_lost ∷ [] }

logs_in : login_user_handler hashing config "root" "secret" accounts ≡ (ok "token", after_login)
unfolding login_user_handler
logs_in = refl

abbrev later_db : AccessDb
later_db = record {
  rules = [];
  users = record { user_id = "1"; is_active = true } ∷ [];
  templates = [];
  new_id = λ n. "n";
  now = 120;
  drawn = 0;
  faults = [];
}

login-Verified_example :
    (u : User) × (user_named "root" accounts.users ≡ some u)
    × (u.username ≡ "root")
    × (hashing.verify_password "secret" u.password_hash ≡ ok tt)
    × (mw_authentication verify
          (λ c. pure c.sub)
          (with_token "token" "/api/archive/" "GET")
          later_db
        ≡ after_token
            (λ c. pure c.sub)
            (claims_of config accounts.now u "root")
            "/api/archive/"
            "GET"
            later_db)
login-Verified_example =
    login-Verified hashing config verify 120 "root" "secret" "token" accounts after_login promise
      (omega arith) logs_in (λ c. pure c.sub) "/api/archive/" "GET" later_db
