-- ===== src/Archive/Deletion.antt =====
-- What becomes of the files that are to be deleted.
use cqwu_achievement_system.Prelude.{
  String, Bool, List, [], ◌∷◌, ◌++◌, some, ◌≡◌, refl, subst, ◌⊎◌, inl, inr, ◌<◌, All,
}
use cqwu_achievement_system.Effect.{Result, ok, err, Result-cases, >>=-eq-ok, ok-pair}
use cqwu_achievement_system.Storage.{
  Client, DeleteObjectFailure, DeleteObjectsReport, StorageError, delete_objects,
  delete_objects_with_report, on_failures,
}
use cqwu_achievement_system.Storage.Report.{Accounts, Reported, delete_objects_with_report_covers}
use cqwu_achievement_system.Tasks.{delete_archive_objects}
use cqwu_achievement_system.Tasks.Outbox.Table.{Row, Outbox, Codec, TaskError}
use cqwu_achievement_system.Tasks.Outbox.Dispatcher.{submit}
use cqwu_achievement_system.Tasks.Outbox.Submit.{submit-Placed}
use cqwu_achievement_system.Archive.{delete_files_by_object_keys}

List-cases : {A : Type 0} (xs : List A) → (xs ≡ []) ⊎ ((x : A) × (ys : List A) × (xs ≡ x ∷ ys))
List-cases [] = inl refl
List-cases (x ∷ ys) = inr (x, ys, refl)

module _ {S : Type 0} (client : Client S) where
  no_failures :
      (r : DeleteObjectsReport) (u s' : S)
      → on_failures client r u ≡ (ok tt, s')
      → (r.failed ≡ []) × (u ≡ s')
  no_failures r u s' h = elim (List-cases r.failed) [
    | inl e ↦ (e, (ok-pair {a = tt} {b = tt} (rw e at h)).1)
    | inr (f, fs, e) ↦ absurd (failing f fs (rw e at h))
  ]
    where
      failing :
          (f : DeleteObjectFailure) (fs : List DeleteObjectFailure) {x : StorageError}
          → ◌≡◌ {A = Result StorageError Unit × S} (err x, u) (ok tt, s')
          → ⊥
      failing f fs e = cc e

module _ {P : Type 0} (codec : Codec P) where
  -- The outbox has one more row, which holds the command to delete the keys, or the submission failed.
  abbrev pub Submitted : List String → Outbox P → Outbox P → Type 0
  Submitted keys w o =
      ((r : Row P) × (o.rows ≡ w.rows ++ r ∷ [])
        × (codec.to_value (delete_archive_objects keys) ≡ some r.payload))
      ⊎ ((e : TaskError) × ((submit codec (delete_archive_objects keys) w).0 ≡ err e))

  pub submit-Submitted :
      (keys : List String) (w : Outbox P)
      → All (λ (q : Row P). q.id < w.next_id) w.rows
      → Submitted keys w (submit codec (delete_archive_objects keys) w).1
  submit-Submitted keys w below =
      elim (Result-cases (submit codec (delete_archive_objects keys) w).0) [
        | inl (done, q) ↦ inl (
            let (r, a, b, c, d) =
              submit-Placed codec (delete_archive_objects keys) w
                (submit codec (delete_archive_objects keys) w).1 below
                (λ i. (q i, (submit codec (delete_archive_objects keys) w).1)) in
            (r, a, c))
        | inr failure ↦ inr failure
      ]

module _ {S P : Type 0} (client : Client S) (test : DeleteObjectFailure → Bool)
    (Settled : S → String → Type 0) (accounts : Accounts client test Settled)
    (codec : Codec P) where
  -- A deletion that is answered without failures has settled its keys.
  deleted-Settled :
      (keys : List String) (s s' : S)
      → delete_objects client keys s ≡ (ok tt, s')
      → All (Settled s') keys
  unfolding delete_objects
  deleted-Settled keys s s' h =
      let (r, u, e, f) =
        >>=-eq-ok (delete_objects_with_report client keys) (λ report. on_failures client report)
          h in
      let (none_failed, same) = no_failures client r u s' f in
      settled_only s' r.failed keys
        (subst (λ t. All (λ k. Settled t k ⊎ Reported test k r.failed) keys) same
          (delete_objects_with_report_covers client test Settled accounts keys s u r e))
        none_failed
    where
      settled_only :
          (t : S) (fs : List DeleteObjectFailure) (ks : List String)
          → All (λ k. Settled t k ⊎ Reported test k fs) ks
          → fs ≡ []
          → All (Settled t) ks
      settled_only t fs [] c e = tt
      settled_only t fs (k ∷ ks) c e = (
        (elim c.0 [ inl x ↦ x | inr x ↦ absurd (subst (λ fs. Reported test k fs) e x) ]),
        settled_only t fs ks c.1 e,
      )

  -- What is known of the state that a deletion of files leaves: every key is settled, or the outbox has
  -- one more row, which holds the command to delete the keys, or the submission failed.
  abbrev pub Accounted : List String → Outbox P → S × Outbox P → Type 0
  Accounted keys w x = All (Settled x.0) keys ⊎ Submitted codec keys w x.1

  -- Whatever happens to a deletion of files: every key is settled at the store, or the outbox has one
  -- more row, which holds the command to delete the keys, or the submission failed.
  pub deletion-Accounted :
      (keys : List String) (s : S) (w : Outbox P)
      → All (λ (q : Row P). q.id < w.next_id) w.rows
      → Accounted keys w (delete_files_by_object_keys client codec keys (s, w))
  unfolding delete_files_by_object_keys
  deletion-Accounted [] s w below = inl tt
  deletion-Accounted (k ∷ ks) s w below = cases (delete_objects client (k ∷ ks) s).0 refl
    where
      left : S
      left = (delete_objects client (k ∷ ks) s).1

      cases :
          (o : Result StorageError Unit)
          → (delete_objects client (k ∷ ks) s).0 ≡ o
          → Accounted (k ∷ ks) w (elim o [
            | ok done ↦ (left, w)
            | err e ↦ (left, (submit codec (delete_archive_objects (k ∷ ks)) w).1)
          ])
      cases (ok done) p = inl (deleted-Settled (k ∷ ks) s left (λ i. (p i, left)))
      cases (err e) p = inr (submit-Submitted codec (k ∷ ks) w below)
