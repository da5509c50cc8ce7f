-- ===== src/Tests/Cleanup.antt =====
-- The theorem on the cleanup, at concrete inputs.
use cqwu_achievement_system.Prelude.{
  ◌≡◌, refl, subst, inl, inr, true, false, not, String, Option, none, some, List, [], ◌∷◌, any,
  keep, map, str_eq, eq_iff, All, or_left, or_right, Bool-cases, arith,
}
use cqwu_achievement_system.Effect.{ok, Ensures, works}
use cqwu_achievement_system.Storage.{Client}
use cqwu_achievement_system.Json.{pos}
use cqwu_achievement_system.Server.{FileRow}
use cqwu_achievement_system.Users.{User}
use cqwu_achievement_system.Access.{user_role}
use cqwu_achievement_system.Access.Pattern.{starts_with}
use cqwu_achievement_system.Cleanup.{
  ListedObject, Lister, Deployment, contains, is_extension, no_dot_or_slash,
  cleanup_orphan_persistent_objects,
}
use cqwu_achievement_system.Cleanup.Kept.{Under, PageUnder, Referenced-Holds}

-- A bucket is the list of its keys; every object is as old as the epoch.
abbrev listed : String → ListedObject
listed key = record { key = some key; last_modified = some 0 }

abbrev list_objects : Lister (List String)
list_objects prefix token s = (
  ok (record {
    contents = map listed (keep (starts_with prefix) s);
    is_truncated = some false;
    next_continuation_token = none;
  }),
  s,
)

abbrev client : Client (List String)
client = record {
  refused = λ key. none;
  delete_objects = λ keys s.
      (ok (record { deleted = map some keys; errors = [] }), keep (λ k. not (contains keys k)) s);
}

abbrev Holds : String → List String → Type 0
Holds key s = contains s key ≡ true

page-Under :
    (prefix : String) (s : List String)
    → All (λ (o : ListedObject). Under prefix o.key) (map listed (keep (starts_with prefix) s))
page-Under prefix [] = tt
page-Under prefix (k ∷ ks) = elim (Bool-cases (starts_with prefix k)) [
  | inl e ↦ rw e (e, page-Under prefix ks)
  | inr e ↦ rw e (page-Under prefix ks)
]

lists :
    (key prefix : String) (token : Option String)
    → Ensures (Holds key) (PageUnder prefix) (list_objects prefix token)
lists key prefix token s h = (h, page-Under prefix s)

leaves :
    (key : String) (keys s : List String)
    → any (str_eq key) keys ≡ false
    → Holds key s
    → Holds key (client.delete_objects keys s).1
leaves key keys [] h c = c
leaves key keys (k ∷ ks) h c = elim (Bool-cases (str_eq key k)) [
  | inl e ↦
      let q = subst (λ x. any (str_eq x) keys ≡ false) ((eq_iff key k).0 e) h in
      rw q (or_left (str_eq key k) _ e)
  | inr e ↦ elim (Bool-cases (contains keys k)) [
    | inl q ↦ rw q (leaves key keys ks h (ground arith))
    | inr q ↦ rw q (or_right (str_eq key k) _ (leaves key keys ks h (ground arith)))
  ]
]

abbrev file : FileRow
file = record {
  file_id = "f";
  record_id = "r";
  object_key = "archive/r/f";
  metadata = record { filename = "a.txt"; file_size = pos 3; mime_type = "text/plain" };
  uploaded_by = some "u";
}

abbrev user : User
user = record {
  user_id = "u";
  username = "name";
  nickname = "Name";
  password_hash = "hash";
  role = user_role;
  is_active = true;
  email = none;
  phone = none;
  major = none;
  college = none;
  avatar_key = some "avatar/u.png";
  created_at = 0;
}

abbrev deployment : Deployment (List String)
deployment = record {
  bucket = "archive/r/f" ∷ "archive/r/gone" ∷ "avatar/u" ∷ "avatar/gone" ∷ "temp/t" ∷ [];
  files = file ∷ [];
  users = user ∷ [];
  clock = some 1000;
  locked = false;
  faults = works ∷ [];
}

-- The two orphans are gone.
cleaned :
    (cleanup_orphan_persistent_objects list_objects client 60 5 deployment).1.bucket
    ≡ "archive/r/f" ∷ "avatar/u" ∷ "temp/t" ∷ []
unfolding cleanup_orphan_persistent_objects starts_with
cleaned = refl

is_extension-png : is_extension "png" ≡ true
unfolding no_dot_or_slash
is_extension-png = refl

Referenced-Holds_example :
    contains
      (cleanup_orphan_persistent_objects list_objects client 60 5 deployment).1.bucket
      "avatar/u"
    ≡ true
Referenced-Holds_example =
    Referenced-Holds list_objects client (Holds "avatar/u") (lists "avatar/u") 60 5 "avatar/u"
      (leaves "avatar/u") deployment (inr ("u", "", "png", refl, is_extension-png, inl refl)) refl
