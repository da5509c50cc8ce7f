-- ===== src/Storage/Untouched.antt =====
-- What a bulk deletion leaves to the objects that it does not name.
use cqwu_achievement_system.Prelude.{
  ◌≡◌, sym, subst, ap, ◌∙◌, inl, inr, Bool, false, String, List, [], ◌∷◌, ◌++◌, refl, any, str_eq,
  arith,
}
use cqwu_achievement_system.Effect.{Preserves, >>=-Preserves}
use cqwu_achievement_system.Storage.{
  DeleteObjectFailure, DeleteObjectsReport, Client, delete_chunk, delete_chunks,
  delete_objects_with_report, delete_objects, on_failures, report_default, chunks,
}
use cqwu_achievement_system.Storage.Chunks.{concat, concat-chunks}
use cqwu_achievement_system.Storage.Persistence.{delete_chunk_state}

pub any_append_left :
    {A : Type 0} (p : A → Bool) (xs ys : List A) → any p (xs ++ ys) ≡ false → any p xs ≡ false
any_append_left p [] ys h = ground arith
any_append_left p (x ∷ xs) ys h = ground (arith, any_append_left p xs ys)

pub any_append_right :
    {A : Type 0} (p : A → Bool) (xs ys : List A) → any p (xs ++ ys) ≡ false → any p ys ≡ false
any_append_right p [] ys h = h
any_append_right p (x ∷ xs) ys h = any_append_right p xs ys (ground arith)

module _ {S : Type 0} (client : Client S) (key : String) (Holds : S → Type 0)
    (leaves : (keys : List String) (s : S)
      → any (str_eq key) keys ≡ false
      → Holds s
      → Holds (client.delete_objects keys s).1) where
  delete_chunk-Preserves :
      (report : DeleteObjectsReport) (chunk : List String)
      → any (str_eq key) chunk ≡ false
      → Preserves Holds (delete_chunk client report chunk)
  delete_chunk-Preserves report chunk h s c = elim (delete_chunk_state client report chunk s) [
    | inl e ↦ subst Holds (sym e) c
    | inr e ↦ subst Holds (sym e) (leaves chunk s h c)
  ]

  delete_chunks-Preserves :
      (cs : List (List String)) (report : DeleteObjectsReport)
      → any (str_eq key) (concat cs) ≡ false
      → Preserves Holds (delete_chunks client report cs)
  unfolding delete_chunks concat
  delete_chunks-Preserves [] report h = λ s c. c
  delete_chunks-Preserves (c ∷ cs) report h =
      >>=-Preserves Holds (delete_chunk client report c) _
        (delete_chunk-Preserves report c (any_append_left _ c (concat cs) h))
        λ q. delete_chunks-Preserves cs q (any_append_right _ c (concat cs) h)

  with_report-Preserves :
      (keys : List String)
      → any (str_eq key) keys ≡ false
      → Preserves Holds (delete_objects_with_report client keys)
  unfolding delete_objects_with_report
  with_report-Preserves [] h = λ s c. c
  with_report-Preserves (k ∷ ks) h =
      delete_chunks-Preserves (chunks 1000 (k ∷ ks)) report_default
        (ap (any (str_eq key)) (concat-chunks 999 (k ∷ ks)) ∙ h)

  on_failures-Preserves :
      (report : DeleteObjectsReport) → Preserves Holds (on_failures client report)
  on_failures-Preserves report = by_failures report.failed report refl
    where
      by_failures :
          (fs : List DeleteObjectFailure) (r : DeleteObjectsReport)
          → r.failed ≡ fs
          → Preserves Holds (on_failures client r)
      by_failures [] r e s c = rw e c
      by_failures (f ∷ fs) r e s c = rw e c

  pub delete_objects-Preserves :
      (keys : List String)
      → any (str_eq key) keys ≡ false
      → Preserves Holds (delete_objects client keys)
  unfolding delete_objects
  delete_objects-Preserves keys h =
      >>=-Preserves Holds (delete_objects_with_report client keys) _ (with_report-Preserves keys h)
        on_failures-Preserves
