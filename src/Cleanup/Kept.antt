-- ===== src/Cleanup/Kept.antt =====
-- A run of the cleanup keeps the objects that the database refers to.
use cqwu_achievement_system.Prelude.{
  ℕ, zero, suc, ◌≡◌, refl, ap, Bool, true, false, ◌||◌, ◌==◌, String, Option, none, some, List, [],
  ◌∷◌, ◌++◌, any, str_eq, All, All-append, if◌then◌else◌,
}
use cqwu_achievement_system.Effect.{
  Result, ok, err, Action, Fault, works, refused, reply_lost, OnOk, Ensures, >>=-Ensures, pure,
  next_fault, later_faults,
}
use cqwu_achievement_system.Storage.{Client, StorageError, delete_objects}
use cqwu_achievement_system.Storage.Untouched.{delete_objects-Preserves}
use cqwu_achievement_system.Server.{FileRow}
use cqwu_achievement_system.Users.{User}
use cqwu_achievement_system.Access.Pattern.{starts_with}
use cqwu_achievement_system.Cleanup.{
  ListedObject, ListOutput, Lister, keys_of_contents, old_key, is_old, next_page, list_pages,
  list_object_keys_with_prefix_older_than, Deployment, archive_keys_in_db, avatar_keys_in_db,
  orphans, on_bucket, query, answer, lock_under, try_advisory_lock, advisory_unlock, list_keys,
  delete_orphans, cleanup, if_acquired, cleanup_orphan_persistent_objects,
}
use cqwu_achievement_system.Cleanup.Orphans.{Referenced, Prefixed, orphans-Referenced}

abbrev pub Under : String → Option String → Type 0
Under prefix none = Unit
Under prefix (some key) = starts_with prefix key ≡ true

-- Every key of a page has the prefix.
abbrev pub PageUnder : String → ListOutput → Type 0
PageUnder prefix output = All (λ (o : ListedObject). Under prefix o.key) output.contents

module _ (prefix : String) (min_age now : ℕ) where
  old_key-Prefixed :
      (key : Option String) (modified : Option ℕ) (keys : List String)
      → Under prefix key
      → Prefixed prefix keys
      → Prefixed prefix (old_key min_age now key modified keys)
  old_key-Prefixed none modified keys h p = p
  old_key-Prefixed (some key) modified keys h p =
      by_age (min_age == 0 || is_old min_age now modified)
    where
      by_age : (b : Bool) → Prefixed prefix (if b then key ∷ keys else keys)
      by_age true = (h, p)
      by_age false = p

  keys_of_contents-Prefixed :
      (os : List ListedObject)
      → All (λ (o : ListedObject). Under prefix o.key) os
      → Prefixed prefix (keys_of_contents min_age now os)
  unfolding keys_of_contents
  keys_of_contents-Prefixed [] h = tt
  keys_of_contents-Prefixed (o ∷ os) h =
      old_key-Prefixed o.key o.last_modified (keys_of_contents min_age now os) h.0
        (keys_of_contents-Prefixed os h.1)

module _ {S : Type 0} (list_objects : Lister S) (client : Client S) (Holds : S → Type 0)
    (lists : (prefix : String) (token : Option String)
      → Ensures Holds (PageUnder prefix) (list_objects prefix token))
    (min_age pages : ℕ) where
  list_pages-Ensures :
      (prefix : String) (now n : ℕ) (keys : List String) (token : Option String)
      → Prefixed prefix keys
      → Ensures Holds (Prefixed prefix) (list_pages list_objects prefix min_age now n keys token)
  unfolding list_pages
  list_pages-Ensures prefix now zero keys token p = λ s c. (c, tt)
  list_pages-Ensures prefix now (suc n) keys token p =
      >>=-Ensures Holds (PageUnder prefix) (Prefixed prefix) (list_objects prefix token) _
        (lists prefix token)
        λ output q.
          next (list_pages-Ensures prefix now n) (next_page output)
            (keys ++ keys_of_contents min_age now output.contents)
            (All-append _ keys _ p (keys_of_contents-Prefixed prefix min_age now output.contents q))
    where
      next :
          ((found : List String) (t : Option String)
            → Prefixed prefix found
            → Ensures Holds
                (Prefixed prefix)
                (list_pages list_objects prefix min_age now n found t))
          → (o : Option String) (found : List String) → Prefixed prefix found
          → Ensures {E = StorageError} Holds (Prefixed prefix) (elim o [
            | none ↦ pure found
            | some t ↦ list_pages list_objects prefix min_age now n found (some t)
          ])
      next rest none found f = λ s c. (c, f)
      next rest (some t) found f = rest found (some t) f

  listing-Ensures :
      (prefix : String) (clock : Option ℕ)
      → Ensures Holds
          (Prefixed prefix)
          (list_object_keys_with_prefix_older_than list_objects prefix min_age clock pages)
  unfolding list_object_keys_with_prefix_older_than
  listing-Ensures prefix none = λ s c. (c, tt)
  listing-Ensures prefix (some now) = list_pages-Ensures prefix now pages [] none tt

  module _ (fs : List FileRow) (us : List User) where
    -- The tables are as they were, and the object is there.
    abbrev Kept : Deployment S → Type 0
    Kept w = (w.files ≡ fs) × (w.users ≡ us) × Holds w.bucket

    on_bucket-Ensures :
        {A : Type 0} (Q : A → Type 0) (m : Action S StorageError A)
        → Ensures Holds Q m
        → Ensures Kept Q (on_bucket m)
    on_bucket-Ensures Q m h w (f, u, c) = ((f, u, (h w.bucket c).0), (h w.bucket c).1)

    query-Ensures :
        {A : Type 0} (read : Deployment S → A) (v : A)
        → ((w : Deployment S) → Kept w → read w ≡ v)
        → Ensures Kept (λ x. x ≡ v) (query read)
    query-Ensures {A} read v h w k = (k, answered (next_fault w.faults) (read w) (h w k))
      where
        answered : (x : Fault) (a : A) → a ≡ v → OnOk (λ b. b ≡ v) (answer x a)
        answered works a e = e
        answered refused a e = tt
        answered reply_lost a e = tt

    try_advisory_lock-Ensures : Ensures Kept (λ b. Unit {0}) try_advisory_lock
    unfolding try_advisory_lock
    try_advisory_lock-Ensures w k =
        under_fault (next_fault w.faults) (record w { faults = later_faults w.faults }) k
      where
        under_fault :
            (x : Fault) (v : Deployment S)
            → Kept v
            → Kept (lock_under x v).1 × OnOk (λ b. Unit {0}) (lock_under x v).0
        under_fault works v h = (h, tt)
        under_fault refused v h = (h, tt)
        under_fault reply_lost v h = (h, tt)

    module _ (key : String)
        (leaves : (keys : List String) (s : S)
          → any (str_eq key) keys ≡ false
          → Holds s
          → Holds (client.delete_objects keys s).1)
        (referenced : Referenced fs us key) where
      delete_orphans-Ensures :
          (keys : List String)
          → any (str_eq key) keys ≡ false
          → Ensures Kept (λ u. Unit {0}) (delete_orphans list_objects client min_age pages keys)
      delete_orphans-Ensures [] h = λ w k. (k, tt)
      delete_orphans-Ensures (k ∷ ks) h =
          on_bucket-Ensures (λ u. Unit {0}) (delete_objects client (k ∷ ks))
            λ s c. (delete_objects-Preserves client key Holds leaves (k ∷ ks) h s c, nothing _)
        where
          nothing : (r : Result StorageError (Unit {0})) → OnOk (λ u. Unit {0}) r
          nothing (ok u) = tt
          nothing (err e) = tt

      list_keys-Ensures :
          (prefix : String)
          → Ensures Kept (Prefixed prefix) (list_keys list_objects client min_age pages prefix)
      list_keys-Ensures prefix w =
          on_bucket-Ensures (Prefixed prefix)
            (list_object_keys_with_prefix_older_than list_objects prefix min_age w.clock pages)
            (listing-Ensures prefix w.clock) w

      cleanup-Ensures : Ensures Kept (λ u. Unit {0}) (cleanup list_objects client min_age pages)
      unfolding cleanup
      cleanup-Ensures =
          >>=-Ensures Kept (Prefixed "archive/") (λ u. Unit {0})
            (list_keys list_objects client min_age pages "archive/") _
            (list_keys-Ensures "archive/")
            λ archive p.
              >>=-Ensures Kept (Prefixed "avatar/") (λ u. Unit {0})
                (list_keys list_objects client min_age pages "avatar/") _
                (list_keys-Ensures "avatar/")
                λ avatar q.
                  >>=-Ensures Kept (λ x. x ≡ archive_keys_in_db fs) (λ u. Unit {0})
                    (query (λ w. archive_keys_in_db w.files)) _
                    (query-Ensures _ (archive_keys_in_db fs) λ w k. ap archive_keys_in_db k.0)
                    λ db e.
                      >>=-Ensures Kept (λ x. x ≡ avatar_keys_in_db us) (λ u. Unit {0})
                        (query (λ w. avatar_keys_in_db w.users)) _
                        (query-Ensures _ (avatar_keys_in_db us) λ w k. ap avatar_keys_in_db k.1)
                        λ av f.
                          delete_orphans-Ensures (orphans archive db avatar av)
                            (rw (e, f) (orphans-Referenced key fs us archive avatar referenced p q))

      run-Ensures :
          Ensures Kept
            (λ u. Unit {0})
            (cleanup_orphan_persistent_objects list_objects client min_age pages)
      unfolding cleanup_orphan_persistent_objects advisory_unlock
      run-Ensures =
          >>=-Ensures Kept (λ u. u ≡ tt) (λ u. Unit {0}) (query (λ w. tt)) _
            (query-Ensures _ tt λ w k. refl)
            λ u e.
              >>=-Ensures Kept (λ b. Unit {0}) (λ u. Unit {0}) try_advisory_lock _
                try_advisory_lock-Ensures λ b t. acquired b
        where
          acquired :
              (b : Bool)
              → Ensures Kept (λ u. Unit {0}) (if_acquired list_objects client min_age pages b)
          acquired false = λ w k. (k, tt)
          acquired true = λ w k. cleanup-Ensures w k

  -- When the database refers to an object, in a file row of an archive or as an avatar, the cleanup
  -- leaves the object, whatever the listings answer, however long they are, and whichever
  -- statements and requests fail. It relies on the service in three points: a listing names keys with
  -- its prefix only, it changes nothing the object needs to be there, and a request to delete some
  -- keys leaves the objects of the others.
  pub Referenced-Holds :
      (key : String)
      → ((keys : List String) (s : S)
          → any (str_eq key) keys ≡ false
          → Holds s
          → Holds (client.delete_objects keys s).1)
      → (w : Deployment S) → Referenced w.files w.users key
      → Holds w.bucket
      → Holds (cleanup_orphan_persistent_objects list_objects client min_age pages w).1.bucket
  Referenced-Holds key leaves w r h =
      (run-Ensures w.files w.users key leaves r w (refl, refl, h)).0.2
