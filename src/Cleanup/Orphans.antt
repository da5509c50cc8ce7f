-- ===== src/Cleanup/Orphans.antt =====
-- What the cleanup leaves: the objects that a file row or an avatar refers to.
use Prim.Native.Char.{Char}
use Prim.Native.String.{◌∷◌ as text_cons, ◌++◌ as text_append}
use cqwu_achievement_system.Prelude.{
  ◌≡◌, refl, sym, subst, ap, ◌∙◌, ◌⊎◌, inl, inr, Bool, true, false, not, String, Option, none, some,
  List, [], ◌∷◌, ◌++◌, any, keep, str_eq, eq_iff, arith, All, or_left, Bool-cases,
}
use cqwu_achievement_system.Server.{FileRow}
use cqwu_achievement_system.Users.{User}
use cqwu_achievement_system.Access.Pattern.{starts_with}
use cqwu_achievement_system.Cleanup.{
  archive_keys_in_db, is_extension, object_key_of_avatar, with_avatar_key, avatar_keys_in_db,
  contains, orphans,
}
use cqwu_achievement_system.Cleanup.AvatarKeys.{
  append_assoc, object_key_of_avatar-build, starts_with-append, one_prefix,
}

-- Some user's avatar has the key.
abbrev pub HasAvatar : String → List User → Type 0
HasAvatar key [] = ⊥
HasAvatar key (u ∷ us) = (u.avatar_key ≡ some key) ⊎ HasAvatar key us

-- The database refers to the object: a file row names an object of an archive, or an avatar is the
-- object with an extension.
abbrev pub Referenced : List FileRow → List User → String → Type 0
Referenced fs us key =
    ((starts_with "archive/" key ≡ true)
      × (any (λ (f : FileRow). str_eq key f.object_key) fs ≡ true))
    ⊎ ((c : Char) × (id : String) × (ext : String) × (key ≡ text_append "avatar/" (text_cons c id))
        × (is_extension ext ≡ true)
        × HasAvatar (text_append key (text_cons "." ext)) us)

contains-archive_keys :
    (key : String) (fs : List FileRow)
    → starts_with "archive/" key ≡ true
    → any (λ (f : FileRow). str_eq key f.object_key) fs ≡ true
    → contains (archive_keys_in_db fs) key ≡ true
unfolding archive_keys_in_db
contains-archive_keys key [] a h = ground arith
contains-archive_keys key (f ∷ fs) a h = elim (Bool-cases (str_eq key f.object_key)) [
  | inl e ↦
      let q = subst (λ k. starts_with "archive/" k ≡ true) ((eq_iff key f.object_key).0 e) a in
      rw q (or_left (str_eq key f.object_key) _ e)
  | inr e ↦ ground (arith, contains-archive_keys key fs)
]

contains-avatar_keys :
    (key avatar : String) (us : List User)
    → starts_with "avatar/" avatar ≡ true
    → object_key_of_avatar avatar ≡ key
    → str_eq key "" ≡ false
    → HasAvatar avatar us
    → contains (avatar_keys_in_db us) key ≡ true
unfolding avatar_keys_in_db
contains-avatar_keys key avatar [] a b n h = elim h [ ]
contains-avatar_keys key avatar (u ∷ us) a b n (inl e) =
    rw (e, a, b, n) (or_left (str_eq key key) _ ((eq_iff key key).1 refl))
contains-avatar_keys key avatar (u ∷ us) a b n (inr e) =
    in_rest u.avatar_key (avatar_keys_in_db us) (contains-avatar_keys key avatar us a b n e)
  where
    in_rest :
        (o : Option String) (keys : List String)
        → contains keys key ≡ true
        → contains (with_avatar_key o keys) key ≡ true
    in_rest none keys h = h
    in_rest (some k) keys h = ground arith

-- What a listing answers: keys with the prefix.
abbrev pub Prefixed : String → List String → Type 0
Prefixed prefix keys = All (λ key. starts_with prefix key ≡ true) keys

not_kept :
    (key : String) (db keys : List String)
    → contains db key ≡ true
    → any (str_eq key) (keep (λ k. not (contains db k)) keys) ≡ false
not_kept key db [] h = refl
not_kept key db (k ∷ ks) h = elim (Bool-cases (str_eq key k)) [
  | inl e ↦
      let q = subst (λ x. contains db x ≡ true) ((eq_iff key k).0 e) h in
      rw q (not_kept key db ks h)
  | inr e ↦ elim (Bool-cases (contains db k)) [
    | inl q ↦ rw q (not_kept key db ks h)
    | inr q ↦ rw (q, e) (not_kept key db ks h)
  ]
]

clash : (b : Bool) → b ≡ true → b ≡ false → ⊥
clash b h k = ground arith

not_listed :
    (prefix key : String) (db keys : List String)
    → starts_with prefix key ≡ false
    → Prefixed prefix keys
    → any (str_eq key) (keep (λ k. not (contains db k)) keys) ≡ false
not_listed prefix key db [] h p = refl
not_listed prefix key db (k ∷ ks) h (a, p) = elim (Bool-cases (str_eq key k)) [
  | inl e ↦
      let q = subst (λ x. starts_with prefix x ≡ true) (sym ((eq_iff key k).0 e)) a in
      absurd (clash (starts_with prefix key) q h)
  | inr e ↦ elim (Bool-cases (contains db k)) [
    | inl q ↦ rw q (not_listed prefix key db ks h p)
    | inr q ↦ rw (q, e) (not_listed prefix key db ks h p)
  ]
]

any_append :
    {A : Type 0} (p : A → Bool) (xs ys : List A)
    → any p xs ≡ false
    → any p ys ≡ false
    → any p (xs ++ ys) ≡ false
any_append p [] ys h k = k
any_append p (x ∷ xs) ys h k = ground (arith, any_append p xs ys)

not_archive : (key : String) → starts_with "avatar/" key ≡ true → starts_with "archive/" key ≡ false
not_archive key a = elim (Bool-cases (starts_with "archive/" key)) [
  | inl e ↦ absurd (clash (starts_with "avatar/" key) a (one_prefix key e))
  | inr e ↦ e
]

not_empty : (key : String) → starts_with "avatar/" key ≡ true → str_eq key "" ≡ false
unfolding starts_with
not_empty key a = elim (Bool-cases (str_eq key "")) [
  | inl e ↦ absurd (
      clash (starts_with "avatar/" "")
        (subst (λ k. starts_with "avatar/" k ≡ true) ((eq_iff key "").0 e) a) refl)
  | inr e ↦ e
]

-- A key that the database refers to is no orphan.
pub orphans-Referenced :
    (key : String) (fs : List FileRow) (us : List User) (archive avatar : List String)
    → Referenced fs us key
    → Prefixed "archive/" archive
    → Prefixed "avatar/" avatar
    → any (str_eq key) (orphans archive (archive_keys_in_db fs) avatar (avatar_keys_in_db us))
      ≡ false
unfolding orphans
orphans-Referenced key fs us archive avatar (inl (a, h)) p q =
    any_append (str_eq key) (keep _ archive) (keep _ avatar)
      (not_kept key (archive_keys_in_db fs) archive (contains-archive_keys key fs a h))
      (not_listed "avatar/" key (avatar_keys_in_db us) avatar (one_prefix key a) q)
orphans-Referenced key fs us archive avatar (inr (c, id, ext, e, x, h)) p q =
    let a : starts_with "avatar/" key ≡ true =
      subst (λ k. starts_with "avatar/" k ≡ true) (sym e)
        (starts_with-append "avatar/" (text_cons c id)) in
    any_append (str_eq key) (keep _ archive) (keep _ avatar)
      (not_listed "archive/" key (archive_keys_in_db fs) archive (not_archive key a) p)
      (not_kept key (avatar_keys_in_db us) avatar (
        contains-avatar_keys key (text_append key (text_cons "." ext)) us
          (subst (λ k. starts_with "avatar/" (text_append k (text_cons "." ext)) ≡ true) (sym e)
            (ap (starts_with "avatar/")
                (append_assoc "avatar/" (text_cons c id) (text_cons "." ext))
              ∙ starts_with-append "avatar/" (text_append (text_cons c id) (text_cons "." ext))))
          (subst (λ k. object_key_of_avatar (text_append k (text_cons "." ext)) ≡ k) (sym e)
            (object_key_of_avatar-build c id ext x))
          (not_empty key a) h))
