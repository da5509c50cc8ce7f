-- ===== src/Users/Admins.antt =====
-- The administrators' requests about users never take the last active administrator away.
use Prim.Native.Char.{Char}
use cqwu_achievement_system.Prelude.{
  ℕ, suc, String, Bool, true, false, not, ◌&&◌, Option, none, some, List, [], ◌∷◌, str_eq, any,
  keep, if◌then◌else◌, ◌≡◌, refl, sym, subst, or-cases, or_left, or_right, inl, inr, and_left,
  and_right, eq_iff,
}
use cqwu_achievement_system.Effect.{
  Fault, works, refused, reply_lost, next_fault, later_faults, under, Preserves, >>=-Preserves,
  lift, raise,
}
use cqwu_achievement_system.Errors.{forbidden}
use cqwu_achievement_system.Access.{UserRole, admin_role, user_role}
use cqwu_achievement_system.Users.{
  User, Accounts, Statement, db_error, run_on_table, statement, RegisterUserRequest,
  validate_register, new_user, added, insert_user, update_user, update_by_id, delete_by_id,
  store_user, or_no_user, with_active, with_hash, modify_user_status, admin_change_user_password,
  delete_user, Hashing, hash_next, create_user_handler, modify_user_status_handler,
  admin_change_user_password_handler, admin_delete_user_handler,
}

abbrev is_admin : UserRole → Bool
is_admin admin_role = true
is_admin user_role = false

-- The user is an administrator whose account is active.
abbrev pub acts_as_admin : User → Bool
acts_as_admin u = u.is_active && is_admin u.role

abbrev pub is_active_admin : String → User → Bool
is_active_admin id u = str_eq u.user_id id && acts_as_admin u

abbrev pub some_admin : List User → Bool
some_admin us = any acts_as_admin us

any-update_user :
    (test : User → Bool) (id : String) (f : User → User) (us : List User)
    → ((u : User) → test u ≡ true → test (if str_eq u.user_id id then f u else u) ≡ true)
    → any test us ≡ true
    → any test (update_user id f us) ≡ true
unfolding update_user
any-update_user test id f [] h k = k
any-update_user test id f (u ∷ us) h k = elim (or-cases (test u) (any test us) k) [
  | inl e ↦
      or_left (test (if str_eq u.user_id id then f u else u)) (any test (update_user id f us))
        (h u e)
  | inr e ↦
      or_right (test (if str_eq u.user_id id then f u else u)) (any test (update_user id f us))
        (any-update_user test id f us h e)
]

any-keep :
    (test p : User → Bool) (us : List User)
    → ((u : User) → test u ≡ true → p u ≡ true)
    → any test us ≡ true
    → any test (keep p us) ≡ true
any-keep test p [] h k = k
any-keep test p (u ∷ us) h k = elim (or-cases (test u) (any test us) k) [
  | inl e ↦ rw (h u e) (or_left (test u) (any test (keep p us)) e)
  | inr e ↦ by_head (p u) (any-keep test p us h e)
]
  where
    by_head :
        (b : Bool)
        → any test (keep p us) ≡ true
        → any test (if b then u ∷ keep p us else keep p us) ≡ true
    by_head true e = or_right (test u) (any test (keep p us)) e
    by_head false e = e

module _ (test : User → Bool) where
  abbrev Holds : Accounts → Type 0
  Holds w = any test w.users ≡ true

  statement-Holds :
      {A : Type 0} (q : Statement A)
      → ((us : List User) → any test us ≡ true → any test (q us).1 ≡ true)
      → Preserves Holds (statement q)
  unfolding statement
  statement-Holds q k w h = by_fault (next_fault w.faults)
    where
      by_fault :
          (f : Fault)
          → Holds
              (under db_error (run_on_table q) f (record w { faults = later_faults w.faults })).1
      by_fault works = k w.users h
      by_fault refused = h
      by_fault reply_lost = k w.users h

  affected-Holds : (b : Bool) → Preserves Holds (or_no_user b)
  affected-Holds true w h = h
  affected-Holds false w h = h

  added-Holds :
      (o : Option User) (b : Bool) (u : User) (us : List User)
      → any test us ≡ true
      → any test (added o b u us).1 ≡ true
  added-Holds (some v) b u us h = h
  added-Holds none true u us h = h
  added-Holds none false u us h = or_right (test u) (any test us) h

either :
    (test : User → Bool) (b : Bool) (v u : User)
    → test v ≡ true
    → test u ≡ true
    → test (if b then v else u) ≡ true
either test true v u h k = h
either test false v u h k = k

unless_same :
    (test : User → Bool) (b : Bool) (v u : User)
    → b ≡ false
    → test u ≡ true
    → test (if b then v else u) ≡ true
unless_same test true v u h k = absurd (cc h)
unless_same test false v u h k = k

not-false : (b : Bool) → b ≡ false → not b ≡ true
not-false true h = absurd (cc h)
not-false false h = refl

-- The requests of an administrator about users.
pub data Request : Type 0 where
  create_user : RegisterUserRequest → Request
  change_status : String → Bool → Request
  change_password : String → String → Request
  delete_account : String → Request

module _ (hashing : Hashing) (is_email : String → Bool) (is_digit : Char → Bool)
    (uuid : ℕ → String) where
  -- A request by the user of the id `sub`
  abbrev pub serve : String → Request → Accounts → Accounts
  serve sub (create_user req) w = (create_user_handler hashing is_email is_digit uuid req w).1
  serve sub (change_status id b) w = (modify_user_status_handler sub id b w).1
  serve sub (change_password id password) w =
      (admin_change_user_password_handler hashing id password w).1
  serve sub (delete_account id) w = (admin_delete_user_handler sub id w).1

  create-Holds :
      (test : User → Bool) (req : RegisterUserRequest)
      → Preserves (Holds test) (create_user_handler hashing is_email is_digit uuid req)
  unfolding create_user_handler store_user insert_user
  create-Holds test req =
      >>=-Preserves (Holds test) (lift (validate_register is_email is_digit req)) _ (λ w h. h)
        λ u.
          >>=-Preserves (Holds test) (hash_next hashing req.password) _ (λ w h. h)
            λ hash w h.
              statement-Holds test (insert_user (new_user (uuid w.drawn) req hash w.now))
                (λ us k. added-Holds test _ _ _ us k) (record w { drawn = suc w.drawn }) h

  password-Holds :
      (sub id password : String)
      → Preserves
          (Holds (is_active_admin sub))
          (admin_change_user_password_handler hashing id password)
  unfolding admin_change_user_password_handler admin_change_user_password update_by_id
  password-Holds sub id password =
      >>=-Preserves (Holds (is_active_admin sub)) _ _ (λ w h. h)
        λ u.
          >>=-Preserves (Holds (is_active_admin sub)) (hash_next hashing password) _ (λ w h. h)
            λ hash.
              >>=-Preserves (Holds (is_active_admin sub))
                (statement (update_by_id id (with_hash hash))) _
                (statement-Holds (is_active_admin sub) _ λ us k.
                  any-update_user (is_active_admin sub) id (with_hash hash) us
                    (λ u e.
                      either (is_active_admin sub) (str_eq u.user_id id) (with_hash hash u) u e e)
                    k)
                (affected-Holds (is_active_admin sub))

  -- Another user's row is not the one of the id.
  other :
      (sub id : String) (u : User)
      → str_eq sub id ≡ false
      → is_active_admin sub u ≡ true
      → str_eq u.user_id id ≡ false
  other sub id u n h =
      subst (λ t. str_eq t id ≡ false)
        (sym ((eq_iff u.user_id sub).0 (and_left (str_eq u.user_id sub) (acts_as_admin u) h))) n

  status-Holds :
      (sub id : String) (b : Bool)
      → Preserves (Holds (is_active_admin sub)) (modify_user_status_handler sub id b)
  unfolding modify_user_status_handler modify_user_status update_by_id
  status-Holds sub id b = by_self (str_eq sub id) refl
    where
      by_self :
          (s : Bool)
          → str_eq sub id ≡ s
          → Preserves
              (Holds (is_active_admin sub))
              (if s then raise (forbidden "不能修改自己的用户状态") else modify_user_status id b)
      by_self true e = λ w h. h
      by_self false e =
          >>=-Preserves (Holds (is_active_admin sub)) (statement (update_by_id id (with_active b)))
            _
            (statement-Holds (is_active_admin sub) _ λ us k.
              any-update_user (is_active_admin sub) id (with_active b) us
                (λ u t.
                  unless_same (is_active_admin sub) (str_eq u.user_id id) (with_active b u) u
                    (other sub id u e t) t)
                k)
            (affected-Holds (is_active_admin sub))

  delete-Holds :
      (sub id : String) → Preserves (Holds (is_active_admin sub)) (admin_delete_user_handler sub id)
  unfolding admin_delete_user_handler delete_user delete_by_id
  delete-Holds sub id = by_self (str_eq sub id) refl
    where
      by_self :
          (s : Bool)
          → str_eq sub id ≡ s
          → Preserves
              (Holds (is_active_admin sub))
              (if s then raise (forbidden "不能删除自己的账户") else delete_user id)
      by_self true e = λ w h. h
      by_self false e =
          >>=-Preserves (Holds (is_active_admin sub)) (statement (delete_by_id id)) _
            (statement-Holds (is_active_admin sub) _ λ us k.
              any-keep (is_active_admin sub) (λ (u : User). not (str_eq u.user_id id)) us
                (λ u t. not-false (str_eq u.user_id id) (other sub id u e t)) k)
            (affected-Holds (is_active_admin sub))

  serve-Holds :
      (sub : String) (r : Request) (w : Accounts)
      → any (is_active_admin sub) w.users ≡ true
      → any (is_active_admin sub) (serve sub r w).users ≡ true
  serve-Holds sub (create_user req) = create-Holds (is_active_admin sub) req
  serve-Holds sub (change_status id b) = status-Holds sub id b
  serve-Holds sub (change_password id password) = password-Holds sub id password
  serve-Holds sub (delete_account id) = delete-Holds sub id

  unfoldable pub serve_all : List (String × Request) → Accounts → Accounts
  serve_all [] w = w
  serve_all (r ∷ rs) w = serve_all rs (serve r.0 r.1 w)

  -- Each request comes from a user who is an active administrator at its time.
  abbrev pub FromAdmins : List (String × Request) → Accounts → Type 0
  FromAdmins [] w = Unit
  FromAdmins (r ∷ rs) w =
      (any (is_active_admin r.0) w.users ≡ true) × FromAdmins rs (serve r.0 r.1 w)

  any-weaker :
      (sub : String) (us : List User) → any (is_active_admin sub) us ≡ true → some_admin us ≡ true
  any-weaker sub [] h = h
  any-weaker sub (u ∷ us) h =
      elim (or-cases (is_active_admin sub u) (any (is_active_admin sub) us) h) [
        | inl e ↦
            or_left (acts_as_admin u) (some_admin us)
              (and_right (str_eq u.user_id sub) (acts_as_admin u) e)
        | inr e ↦ or_right (acts_as_admin u) (some_admin us) (any-weaker sub us e)
      ]

  -- Whatever requests about users are served, each from a user who is an active administrator when it
  -- comes, and whatever statements fail or lose their replies, some administrator stays active.
  pub some_admin-serve_all :
      (rs : List (String × Request)) (w : Accounts)
      → some_admin w.users ≡ true
      → FromAdmins rs w
      → some_admin (serve_all rs w).users ≡ true
  unfolding serve_all
  some_admin-serve_all [] w h a = h
  some_admin-serve_all (r ∷ rs) w h a =
      some_admin-serve_all rs (serve r.0 r.1 w)
        (any-weaker r.0 (serve r.0 r.1 w).users (serve-Holds r.0 r.1 w a.0)) a.1
