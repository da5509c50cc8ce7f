-- ===== src/Cleanup.antt =====
-- The periodic cleanup of the store: src/tasks/periodic/s3_cleanup.rs, with
-- `list_object_keys_with_prefix_older_than` of src/utils/s3_storage.rs.
--
-- The service answers the requests to list objects, page by page; how many pages there are is its
-- choice, so the loop takes a bound on them, and a listing beyond it counts as a failed one. The
-- advisory lock is held by some session or by none; the session of a lost connection has no lock.
pub mod AvatarKeys
pub mod Orphans
pub mod Kept
use Prim.Native.Char.{Char, code}
use Prim.Native.String.{[] as empty_text, ◌∷◌ as text_cons, ◌++◌ as text_append}
use cqwu_achievement_system.Prelude.{
  ℕ, zero, suc, ◌-◌, String, Bool, true, false, not, ◌&&◌, ◌||◌, Option, none, some, List, [], ◌∷◌,
  ◌++◌, str_eq, ◌==◌, leb, any, keep, if◌then◌else◌,
}
use cqwu_achievement_system.Effect.{
  Result, ok, err, Action, Fault, works, refused, reply_lost, next_fault, later_faults, pure, raise,
  lift, ◌>>=◌, ◌>>◌,
}
use cqwu_achievement_system.Storage.{Client, StorageError, delete_objects}
use cqwu_achievement_system.Server.{FileRow}
use cqwu_achievement_system.Users.{User}
use cqwu_achievement_system.Access.Pattern.{starts_with}

-- What the program reads of a listed object: its key and the seconds of its last modification.
pub record ListedObject : Type 0 where
  pub key : Option String
  pub last_modified : Option ℕ

pub record ListOutput : Type 0 where
  pub contents : List ListedObject
  pub is_truncated : Option Bool
  pub next_continuation_token : Option String

-- A request to list: the prefix and the token.
abbrev pub Lister : Type 0 → Type 0
Lister S = String → Option String → Action S StorageError ListOutput

abbrev pub is_old : ℕ → ℕ → Option ℕ → Bool
is_old min_age now none = false
is_old min_age now (some t) = leb min_age (now - t)

-- The key of an object that is old enough; any age will do where none is asked for.
abbrev pub old_key : ℕ → ℕ → Option String → Option ℕ → List String → List String
old_key min_age now none modified keys = keys
old_key min_age now (some key) modified keys =
    if min_age == 0 || is_old min_age now modified then key ∷ keys else keys

unfoldable pub keys_of_contents : ℕ → ℕ → List ListedObject → List String
keys_of_contents min_age now [] = []
keys_of_contents min_age now (o ∷ os) =
    old_key min_age now o.key o.last_modified (keys_of_contents min_age now os)

-- The token of the next page, where there is one.
abbrev pub next_page : ListOutput → Option String
next_page output = elim output.is_truncated [
  | none ↦ none
  | some b ↦ if b then output.next_continuation_token else none
]

abbrev pub too_many_pages : StorageError
too_many_pages = record { source = none; text = "" }

abbrev pub clock_error : StorageError
clock_error = record { source = none; text = "系统时钟异常，无法计算对象年龄" }

module _ {S : Type 0} (list_objects : Lister S) (prefix : String) (min_age : ℕ) where
  unfoldable pub list_pages :
      ℕ → ℕ → List String → Option String → Action S StorageError (List String)
  unfolding keys_of_contents
  list_pages now zero keys token = raise too_many_pages
  list_pages now (suc pages) keys token = list_objects prefix token >>= λ output.
      let found = keys ++ keys_of_contents min_age now output.contents in
      elim (next_page output) [ none ↦ pure found | some t ↦ list_pages now pages found (some t) ]

  -- The clock is before the epoch, or so many seconds after it.
  unfoldable pub list_object_keys_with_prefix_older_than :
      Option ℕ → ℕ → Action S StorageError (List String)
  unfolding list_pages
  list_object_keys_with_prefix_older_than none pages = raise clock_error
  list_object_keys_with_prefix_older_than (some now) pages = list_pages now pages [] none

-- The service and what the program reads of the database, the clock, the lock and the faults of the
-- statements.
pub record Deployment (S : Type 0) : Type 0 where
  pub bucket : S
  pub files : List FileRow
  pub users : List User
  pub clock : Option ℕ
  pub locked : Bool
  pub faults : List Fault

-- `object_key LIKE 'archive/%'`
unfoldable pub archive_keys_in_db : List FileRow → List String
archive_keys_in_db [] = []
archive_keys_in_db (f ∷ fs) =
    if starts_with "archive/" f.object_key
    then f.object_key ∷ archive_keys_in_db fs
    else archive_keys_in_db fs

-- What a dot begins is an extension: `[^./]+` up to the end.
unfoldable pub no_dot_or_slash : String → Bool
no_dot_or_slash empty_text = true
no_dot_or_slash (text_cons c text) = not (code c == b'.' || code c == b'/') && no_dot_or_slash text

abbrev pub is_extension : String → Bool
is_extension empty_text = false
is_extension (text_cons c text) = no_dot_or_slash (text_cons c text)

abbrev pub before : Char → Option String → Bool → Option String
before c (some text) ends_here = some (text_cons c text)
before c none true = some empty_text
before c none false = none

-- The text without `\.[^./]+` at its end, where it ends so.
unfoldable pub without_extension : String → Option String
unfolding no_dot_or_slash
without_extension empty_text = none
without_extension (text_cons c text) =
    before c (without_extension text) (code c == b'.' && is_extension text)

-- The text behind a prefix, the prefix first
unfoldable pub strip_prefix : String → String → Option String
strip_prefix empty_text text = some text
strip_prefix (text_cons p ps) empty_text = none
strip_prefix (text_cons p ps) (text_cons c text) =
    if code p == code c then strip_prefix ps text else none

-- The CASE of the query: `.+` stands for at least one character.
abbrev pub shortened : String → Option String → String
shortened key (some (text_cons c text)) = text_append "avatar/" (text_cons c text)
shortened key _ = key

unfoldable pub of_name : String → Option String → String
unfolding without_extension
of_name key none = key
of_name key (some name) = shortened key (without_extension name)

unfoldable pub object_key_of_avatar : String → String
unfolding strip_prefix of_name
object_key_of_avatar key = of_name key (strip_prefix "avatar/" key)

abbrev pub with_avatar_key : Option String → List String → List String
with_avatar_key none keys = keys
with_avatar_key (some key) keys =
    if starts_with "avatar/" key && not (str_eq (object_key_of_avatar key) "")
    then object_key_of_avatar key ∷ keys
    else keys

unfoldable pub avatar_keys_in_db : List User → List String
unfolding object_key_of_avatar
avatar_keys_in_db [] = []
avatar_keys_in_db (u ∷ us) = with_avatar_key u.avatar_key (avatar_keys_in_db us)

-- `HashSet::contains`
abbrev pub contains : List String → String → Bool
contains keys key = any (str_eq key) keys

unfoldable pub orphans : List String → List String → List String → List String → List String
orphans archive_keys_in_s3 archive_db avatar_keys_in_s3 avatar_db =
    keep (λ key. not (contains archive_db key)) archive_keys_in_s3
    ++ keep (λ key. not (contains avatar_db key)) avatar_keys_in_s3

abbrev pub database_error : StorageError
database_error = record { source = none; text = "database" }

-- A statement that reads: a fault is an error, and no more.
abbrev pub answer : {A : Type 0} → Fault → A → Result StorageError A
answer works a = ok a
answer refused a = err database_error
answer reply_lost a = err database_error

-- The lock is given back, or stays with a session of the pool where the statement is refused.
abbrev pub unlock_under : Fault → Bool → Bool
unlock_under works held = false
unlock_under refused held = held
unlock_under reply_lost held = false

abbrev pub Cleaning : Type 0 → Type 0 → Type 0
Cleaning S A = Action (Deployment S) StorageError A

module _ {S : Type 0} where
  abbrev pub on_bucket : {A : Type 0} → Action S StorageError A → Cleaning S A
  on_bucket m w = let (r, s) = m w.bucket in (r, record w { bucket = s })

  abbrev pub query : {A : Type 0} → (Deployment S → A) → Cleaning S A
  query read w =
      (answer (next_fault w.faults) (read w), record w { faults = later_faults w.faults })

  abbrev pub lock_under : Fault → Cleaning S Bool
  lock_under works w = (ok (not w.locked), record w { locked = true })
  lock_under refused w = (err database_error, w)
  lock_under reply_lost w = (err database_error, w)

  unfoldable pub try_advisory_lock : Cleaning S Bool
  try_advisory_lock w =
      lock_under (next_fault w.faults) (record w { faults = later_faults w.faults })

  unfoldable pub advisory_unlock : Deployment S → Deployment S
  advisory_unlock w = record w {
    locked = unlock_under (next_fault w.faults) w.locked;
    faults = later_faults w.faults;
  }

  module _ (list_objects : Lister S) (client : Client S) (min_object_age pages : ℕ) where
    abbrev pub list_keys : String → Cleaning S (List String)
    list_keys prefix w =
        on_bucket
          (list_object_keys_with_prefix_older_than list_objects prefix min_object_age w.clock pages)
          w

    abbrev pub delete_orphans : List String → Cleaning S Unit
    delete_orphans [] = pure tt
    delete_orphans (key ∷ keys) = on_bucket (delete_objects client (key ∷ keys))

    -- The block whose result is `cleanup_result`.
    unfoldable pub cleanup : Cleaning S Unit
    unfolding list_object_keys_with_prefix_older_than archive_keys_in_db avatar_keys_in_db orphans
        delete_objects
    cleanup = do
      archive_keys_in_s3 ← list_keys "archive/"
      avatar_keys_in_s3 ← list_keys "avatar/"
      archive_db ← query (λ w. archive_keys_in_db w.files)
      avatar_db ← query (λ w. avatar_keys_in_db w.users)
      delete_orphans (orphans archive_keys_in_s3 archive_db avatar_keys_in_s3 avatar_db)

    abbrev pub and_unlock : Cleaning S Unit → Cleaning S Unit
    and_unlock m w = let (r, u) = m w in (r, advisory_unlock u)

    abbrev pub if_acquired : Bool → Cleaning S Unit
    if_acquired false = pure tt
    if_acquired true = and_unlock cleanup

    -- The first statement is the connection that the pool gives.
    unfoldable pub cleanup_orphan_persistent_objects : Cleaning S Unit
    unfolding try_advisory_lock advisory_unlock cleanup
    cleanup_orphan_persistent_objects = do
      query (λ w. tt)
      acquired ← try_advisory_lock
      if_acquired acquired
