-- ===== src/Storage/Persistence.antt =====
-- What a bulk deletion leaves alone, whether it returns a report or not.
use cqwu_achievement_system.Prelude.{
  ◌≡◌, sym, subst, ◌⊎◌, inl, inr, Bool, String, List, [], ◌∷◌, arith,
}
use cqwu_achievement_system.Effect.{Result, ok, err, continue, Result-cases}
use cqwu_achievement_system.Storage.{
  StorageError, DeleteObjectFailure, DeleteObjectsReport, Client, identifiers, delete_chunk,
  delete_chunks, delete_objects_with_report, report_default, chunks,
}
use cqwu_achievement_system.Storage.Report.{Accounts, identifiers_ok}

module _ {S : Type 0} (client : Client S) where
  -- A chunk changes nothing, or what the one request for it changes.
  pub delete_chunk_state :
      (report : DeleteObjectsReport) (chunk : List String) (s : S)
      → ((delete_chunk client report chunk s).1 ≡ s)
        ⊎ ((delete_chunk client report chunk s).1 ≡ (client.delete_objects chunk s).1)
  unfolding delete_chunk
  delete_chunk_state report chunk s = elim (Result-cases (identifiers client.refused chunk)) [
    | inl (os, p) ↦ elim (Result-cases (client.delete_objects os s).0) [
      | inl (out, q) ↦ inr (ground (arith, identifiers_ok client.refused chunk os p))
      | inr (x, q) ↦ inr (ground (arith, identifiers_ok client.refused chunk os p))
    ]
    | inr (x, p) ↦ inl (ground arith)
  ]

module _ {S : Type 0} (client : Client S) (test : DeleteObjectFailure → Bool)
    (Settled : S → String → Type 0) (accounts : Accounts client test Settled) where
  persists-delete_chunk :
      (report : DeleteObjectsReport) (chunk : List String) (s : S) (k : String)
      → Settled s k
      → Settled (delete_chunk client report chunk s).1 k
  persists-delete_chunk report chunk s k h = elim (delete_chunk_state client report chunk s) [
    | inl e ↦ subst (λ t. Settled t k) (sym e) h
    | inr e ↦ subst (λ t. Settled t k) (sym e) (accounts.persists chunk s k h)
  ]

  persists-delete_chunks :
      (cs : List (List String)) (report : DeleteObjectsReport) (s : S) (k : String)
      → Settled s k
      → Settled (delete_chunks client report cs s).1 k
  unfolding delete_chunks
  persists-delete_chunks [] report s k h = h
  persists-delete_chunks (c ∷ cs) report s k h =
      rest (delete_chunk client report c s) (persists-delete_chunk report c s k h)
        (λ q u g. persists-delete_chunks cs q u k g)
    where
      rest :
          (p : Result StorageError DeleteObjectsReport × S)
          → Settled p.1 k
          → ((q : DeleteObjectsReport) (u : S)
              → Settled u k
              → Settled (delete_chunks client q cs u).1 k)
          → Settled (continue (λ q. delete_chunks client q cs) p).1 k
      rest (ok q, u) g more = more q u g
      rest (err x, u) g more = g

  pub persists-delete_objects_with_report :
      (keys : List String) (s : S) (k : String)
      → Settled s k
      → Settled (delete_objects_with_report client keys s).1 k
  unfolding delete_objects_with_report
  persists-delete_objects_with_report [] s k h = h
  persists-delete_objects_with_report (x ∷ xs) s k h =
      persists-delete_chunks (chunks 1000 (x ∷ xs)) report_default s k h
