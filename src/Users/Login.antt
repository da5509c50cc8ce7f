-- ===== src/Users/Login.antt =====
-- Login: `get_stored_credentials`, `validate_user_password` and `generate_jwt` of
-- src/modules/auth/service.rs, the handler of src/modules/auth/routes.rs and `generate_jwt_token` of
-- src/utils/jwt.rs. Why a login fails is not told to the client.
use Prim.Native.Char.{code}
use Prim.Native.String.{[] as empty_text, ◌∷◌ as text_cons, ◌++◌ as text_append}
use Prim.Native.String.append.{nil as append_nil, cons as append_cons}
use cqwu_achievement_system.Prelude.{
  eq→==, ℕ, ◌+◌, ◌<◌, String, Bool, true, false, Option, none, some, List, [], ◌∷◌, ◌++◌, str_eq,
  leb, ◌≡◌, refl, sym, ap, subst, ◌∙◌, eq_iff, if◌then◌else◌, arith,
}
use cqwu_achievement_system.Effect.{
  Result, ok, err, Fault, works, refused, reply_lost, next_fault, later_faults, under, continue,
  map_err, lift, ◌>>=◌, ◌>>◌, >>=-eq-ok, ok-pair,
}
use cqwu_achievement_system.Errors.{AppError, login_failed, unexpected_error}
use cqwu_achievement_system.Access.Guard.{
  Claims, JwtErrorKind, Request, strip_prefix, or_unauthorized, parse_token, check_token,
  check_user_enabled, check_user_role, check_role, mw_authentication,
}
use cqwu_achievement_system.Access.{Query, AccessDb}
use cqwu_achievement_system.Templates.Handlers.{text_length, field_errors, or_validation_error}
use cqwu_achievement_system.Users.{
  User, Accounts, Managed, db_error, statement, run_on_table, user_named, Hashing,
}

-- The hash that a password is checked against where there is no user of the name.
abbrev pub dummy_hash : String
dummy_hash =
    "$argon2id$v=19$m=15000,t=2,p=1$gZiV/M1gPc22ElAH/Jh1Hw$CWOrkoo7oJBQ/iyh7uJ0LO2aLEfrHwTWllSAxT0zRno"

unfoldable pub get_stored_credentials : String → Managed (Option User)
unfolding statement user_named
get_stored_credentials username = statement (λ us. (ok (user_named username us), us))

abbrev pub hash_of : Option User → String
hash_of none = dummy_hash
hash_of (some u) = u.password_hash

abbrev pub or_login_failed : {A : Type 0} → Result String A → Result AppError A
or_login_failed (ok a) = ok a
or_login_failed (err e) = err login_failed

abbrev pub user_or_failed : Option User → Result AppError User
user_or_failed none = err login_failed
user_or_failed (some u) = ok u

-- `map_err(|_| AppError::LoginFailed)` on a call that may fail
abbrev pub masked : {A : Type 0} → Managed A → Managed A
masked run w = let (r, u) = run w in (map_err (λ e. login_failed) r, u)

module _ (hashing : Hashing) where
  -- The password is verified, against some hash, whether there is a user or not.
  unfoldable pub validate_user_password : String → String → Managed User
  unfolding get_stored_credentials
  validate_user_password username password = do
    found ← masked (get_stored_credentials username)
    lift (or_login_failed (hashing.verify_password password (hash_of found)))
    lift (user_or_failed found)

-- `JwtConfig`: the encoding of claims under its secret, and the time until a token expires
pub record JwtConfig : Type 0 where
  pub encode : Claims → Result String String
  pub expiration : ℕ

abbrev pub claims_of : JwtConfig → ℕ → User → String → Claims
claims_of config now u username = record {
  sub = u.user_id;
  exp = now + config.expiration;
  iat = now;
  username = username;
  role = u.role;
}

abbrev pub or_unexpected : {A : Type 0} → Result String A → Result AppError A
or_unexpected (ok a) = ok a
or_unexpected (err e) = err (unexpected_error e)

unfoldable pub generate_jwt : JwtConfig → User → String → Managed String
generate_jwt config u username w =
    (or_unexpected (config.encode (claims_of config w.now u username)), w)

unfoldable pub login_user_handler : Hashing → JwtConfig → String → String → Managed String
unfolding validate_user_password generate_jwt text_length
login_user_handler hashing config username password = do
  lift (
      or_validation_error (
        field_errors "username" "用户名不能为空" (leb 1 (text_length username))
        ++ field_errors "password" "密码不能为空" (leb 1 (text_length password))))
  u ← validate_user_password hashing username password
  generate_jwt config u username

user_named-username :
    (name : String) (us : List User) (u : User) → user_named name us ≡ some u → u.username ≡ name
unfolding user_named
user_named-username name [] u h = absurd (cc h)
user_named-username name (v ∷ us) u h =
    by_head (str_eq v.username name) refl (user_named-username name us u) h
  where
    same : (a b : User) → some a ≡ some b → a ≡ b
    same a b h = ground arith

    by_head :
        (b : Bool)
        → str_eq v.username name ≡ b
        → (user_named name us ≡ some u → u.username ≡ name)
        → (if b then some v else user_named name us) ≡ some u
        → u.username ≡ name
    by_head true e r k =
        ap (λ (x : User). x.username) (sym (same v u k)) ∙ (eq_iff v.username name).0 e
    by_head false e r k = r k

module _ (hashing : Hashing) where
  validated :
      (username password : String) (w w' : Accounts) (u : User)
      → validate_user_password hashing username password w ≡ (ok u, w')
      → (user_named username w.users ≡ some u)
        × (hashing.verify_password password u.password_hash ≡ ok tt)
        × (w'.now ≡ w.now)
  unfolding validate_user_password get_stored_credentials statement
  validated username password w w' u h = by_fault (next_fault w.faults) h
    where
      later : Accounts
      later = record w { faults = later_faults w.faults }

      by_row :
          (o : Option User) (r : Result String Unit)
          → user_named username w.users ≡ o
          → hashing.verify_password password (hash_of o) ≡ r
          → ((lift (or_login_failed r) >> lift (user_or_failed o)) later) ≡ (ok u, w')
          → (user_named username w.users ≡ some u)
            × (hashing.verify_password password u.password_hash ≡ ok tt)
            × (w'.now ≡ w.now)
      by_row o (err e) k v h = absurd (cc h)
      by_row none (ok x) k v h = absurd (cc h)
      by_row (some a) (ok x) k v h =
          let (same, state) = ok-pair h in
          (
            k ∙ ap (λ x. some x) same,
            subst (λ (x : User). hashing.verify_password password x.password_hash ≡ ok tt) same v,
            sym (ap (λ (x : Accounts). x.now) state),
          )

      rest : Option User → Managed User
      rest o =
          lift (or_login_failed (hashing.verify_password password (hash_of o)))
          >> lift (user_or_failed o)

      by_fault :
          (f : Fault)
          → continue rest (
              masked
                (λ v. under db_error (run_on_table (λ us. (ok (user_named username us), us))) f v)
                later)
            ≡ (ok u, w')
          → (user_named username w.users ≡ some u)
            × (hashing.verify_password password u.password_hash ≡ ok tt)
            × (w'.now ≡ w.now)
      by_fault works h =
          by_row (user_named username w.users)
            (hashing.verify_password password (hash_of (user_named username w.users))) refl refl h
      by_fault refused h = absurd (cc h)
      by_fault reply_lost h = absurd (cc h)

or_unexpected-ok : (r : Result String String) (t : String) → or_unexpected r ≡ ok t → r ≡ ok t
or_unexpected-ok (ok a) t h = ap (λ x. ok x) (same a t h)
  where
    same : (a b : String) → ◌≡◌ {A = Result AppError String} (ok a) (ok b) → a ≡ b
    same a b h = ground arith
or_unexpected-ok (err e) t h = absurd (cc h)

strip_prefix-append : (p t : String) → strip_prefix p (text_append p t) ≡ some t
unfolding strip_prefix
strip_prefix-append empty_text t = ap (λ x. some x) (append_nil t)
strip_prefix-append (text_cons c p) t =
    ap (strip_prefix (text_cons c p)) (append_cons c p t)
    ∙ rw (eq→== (code c) (code c) refl) (strip_prefix-append p t)

-- A request that carries the token.
abbrev pub with_token : String → String → String → Request
with_token token path method = record {
  authorization = some (some (text_append "Bearer " token));
  path = path;
  method = method;
}

parse_token-with_token :
    (token path method : String) → parse_token (with_token token path method) ≡ ok token
unfolding parse_token
parse_token-with_token token path method = ap or_unauthorized (strip_prefix-append "Bearer " token)

-- What the middleware has still to do once the token is accepted.
abbrev pub after_token : {R : Type 0} → (Claims → Query R) → Claims → String → String → Query R
after_token next claims path method = do
  check_user_enabled claims
  check_role claims.role (check_user_role claims.sub path method)
  next claims

authentication-after_token :
    {R : Type 0} (verify : String → Result JwtErrorKind Claims) (next : Claims → Query R)
    (token path method : String) (c : Claims) (q : AccessDb)
    → verify token ≡ ok c
    → mw_authentication verify next (with_token token path method) q
      ≡ after_token next c path method q
unfolding mw_authentication check_token
authentication-after_token verify next token path method c q h =
    rw (parse_token-with_token token path method, h) refl

-- Where a token that is not expired verifies to its claims, a login that succeeds gives a token whose
-- claims are those of the user of that name, whose stored hash the password verifies against: until the
-- token expires, the authentication of a request that carries it comes down to the checks for those
-- claims that the user is enabled and may call the path, and to the handler.
pub login-Verified :
    {R : Type 0} (hashing : Hashing) (config : JwtConfig)
    (verify : String → Result JwtErrorKind Claims) (later : ℕ) (username password token : String)
    (w w' : Accounts)
    → ((c : Claims) (t : String) → later < c.exp → config.encode c ≡ ok t → verify t ≡ ok c)
    → later < w.now + config.expiration
    → login_user_handler hashing config username password w ≡ (ok token, w')
    → (next : Claims → Query R) (path method : String) (q : AccessDb)
    → (u : User) × (user_named username w.users ≡ some u)
      × (u.username ≡ username)
      × (hashing.verify_password password u.password_hash ≡ ok tt)
      × (mw_authentication verify next (with_token token path method) q
          ≡ after_token next (claims_of config w.now u username) path method q)
unfolding login_user_handler generate_jwt
login-Verified hashing config verify later username password token w w' promise valid h next path
      method q =
    by_validation _ h
  where
    Granted : Type 0
    Granted =
        (u : User) × (user_named username w.users ≡ some u)
        × (u.username ≡ username)
        × (hashing.verify_password password u.password_hash ≡ ok tt)
        × (mw_authentication verify next (with_token token path method) q
            ≡ after_token next (claims_of config w.now u username) path method q)

    granted :
        (validate_user_password hashing username password >>= λ u. generate_jwt config u username) w
          ≡ (ok token, w')
        → Granted
    granted h =
        let (u, v, e, g) =
          >>=-eq-ok (validate_user_password hashing username password)
            (λ u. generate_jwt config u username) {s = w} {t = w'} {b = token} h in
        let (found, verified, now) = validated hashing username password w v u e in
        (
          u,
          found,
          user_named-username username w.users u found,
          verified,
          authentication-after_token verify next token path method
              (claims_of config w.now u username) q
              (promise (claims_of config w.now u username) token valid (
                subst (λ n. config.encode (claims_of config n u username) ≡ ok token) now
                  (or_unexpected-ok _ token
                    (ap (λ (x : Result AppError String × Accounts). x.0) g)))),
        )

    by_validation :
        (r : Result AppError Unit)
        → (lift r
              >> (validate_user_password hashing username password >>= λ u.
                  generate_jwt config u username))
            w
          ≡ (ok token, w')
        → Granted
    by_validation (err e) h = absurd (cc h)
    by_validation (ok x) h = granted h
