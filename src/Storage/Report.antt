-- ===== src/Storage/Report.antt =====
-- What the report of a bulk deletion says of each key.
use cqwu_achievement_system.Prelude.{
  ◌≤◌, ◌≡◌, sym, subst, ◌⊎◌, inl, inr, Bool, true, String, Option, List, [], ◌∷◌, ◌++◌, map, arith,
  length, All, All-append,
}
use cqwu_achievement_system.Effect.{Result, ok, Result-cases, ok-pair, >>=-eq-ok}
use cqwu_achievement_system.Storage.{
  SdkError, DeleteObjectFailure, DeleteObjectsReport, ErrorEntry, DeleteOutput, Client, failure_of,
  identifiers, send, delete_chunk, delete_chunks, delete_objects_with_report, report_default,
  chunks,
}
use cqwu_achievement_system.Storage.Chunks.{concat, concat-chunks, chunks_partition}

-- A failure of the list that passes the test is about the key.
abbrev pub Reported : (DeleteObjectFailure → Bool) → String → List DeleteObjectFailure → Type 0
Reported test k [] = ⊥
Reported test k (f ∷ fs) = ((f.key ≡ k) × (test f ≡ true)) ⊎ Reported test k fs

Reported-append_left :
    (test : DeleteObjectFailure → Bool) (k : String) (fs gs : List DeleteObjectFailure)
    → Reported test k fs
    → Reported test k (fs ++ gs)
Reported-append_left test k [] gs h = elim h [ ]
Reported-append_left test k (f ∷ fs) gs (inl h) = inl h
Reported-append_left test k (f ∷ fs) gs (inr h) = inr (Reported-append_left test k fs gs h)

Reported-append_right :
    (test : DeleteObjectFailure → Bool) (k : String) (fs gs : List DeleteObjectFailure)
    → Reported test k gs
    → Reported test k (fs ++ gs)
Reported-append_right test k [] gs h = h
Reported-append_right test k (f ∷ fs) gs h = inr (Reported-append_right test k fs gs h)

All-map :
    {P Q : String → Type 0} (ks : List String) → ((k : String) → P k → Q k) → All P ks → All Q ks
All-map [] f h = tt
All-map (k ∷ ks) f h = (f k h.0, All-map ks f h.1)

pub identifiers_ok :
    (refused : String → Option String) (keys objects : List String)
    → identifiers refused keys ≡ ok objects
    → objects ≡ keys
unfolding identifiers
identifiers_ok refused [] objects e = cc
identifiers_ok refused (k ∷ ks) objects e = elim (Result-cases (identifiers refused ks)) [
  | inl (os, p) ↦ ground (arith, identifiers_ok refused ks os p)
  | inr (x, p) ↦ ground arith
]

module _ {S : Type 0} (client : Client S) where
  send_ok :
      (keys : List String) (s s' : S) (out : DeleteOutput)
      → send client keys s ≡ (ok out, s')
      → client.delete_objects keys s ≡ (ok out, s')
  send_ok keys s s' out h = elim (Result-cases (client.delete_objects keys s).0) [
    | inl (a, p) ↦ ground arith
    | inr (x, p) ↦ ground arith
  ]

  -- A chunk that is deleted was sent as it is, and its errors are added to the report.
  delete_chunk_ok :
      (report r : DeleteObjectsReport) (chunk : List String) (s s' : S)
      → delete_chunk client report chunk s ≡ (ok r, s')
      → (out : DeleteOutput) × (client.delete_objects chunk s ≡ (ok out, s'))
        × (r.failed ≡ report.failed ++ map failure_of out.errors)
  unfolding delete_chunk
  delete_chunk_ok report r chunk s s' h = elim (Result-cases (identifiers client.refused chunk)) [
    | inl (os, p) ↦ elim (Result-cases (send client os s).0) [
      | inl (out, q) ↦ (
        out,
        send_ok chunk s s' out (ground (arith, identifiers_ok client.refused chunk os p)),
        ground arith,
      )
      | inr (x, q) ↦ absurd (ground arith)
    ]
    | inr (x, p) ↦ absurd (ground arith)
  ]

-- An error of a response is about the key, and passes the test as a failure.
abbrev pub NamedIn : (DeleteObjectFailure → Bool) → String → List ErrorEntry → Type 0
NamedIn test k es = Reported test k (map failure_of es)

-- What the client is relied on for: a request for 1 to 1000 keys that it answers accounts for each of
-- its keys, which is settled or stands among the errors, and a settled key stays settled.
pub record Accounts {S : Type 0} (client : Client S) (test : DeleteObjectFailure → Bool)
    (Settled : S → String → Type 0) : Type 0 where
  pub answers :
      (keys : List String) (s s' : S) (out : DeleteOutput)
      → 1 ≤ length keys
      → length keys ≤ 1000
      → client.delete_objects keys s ≡ (ok out, s')
      → All (λ k. Settled s' k ⊎ NamedIn test k out.errors) keys
  pub persists :
      (keys : List String) (s : S) (k : String)
      → Settled s k
      → Settled (client.delete_objects keys s).1 k

module _ {S : Type 0} (client : Client S) (test : DeleteObjectFailure → Bool)
    (Settled : S → String → Type 0) (accounts : Accounts client test Settled) where
  abbrev Covered : DeleteObjectsReport → S → String → Type 0
  Covered r s k = Settled s k ⊎ Reported test k r.failed

  Covered-chunk :
      (report r : DeleteObjectsReport) (chunk : List String) (s s' : S) (k : String)
      → delete_chunk client report chunk s ≡ (ok r, s')
      → Covered report s k
      → Covered r s' k
  Covered-chunk report r chunk s s' k h c =
      let (out, e, f) = delete_chunk_ok client report r chunk s s' h in
      elim c [
        | inl settled ↦ inl (
            subst (λ (p : Result SdkError DeleteOutput × S). Settled p.1 k) e
              (accounts.persists chunk s k settled))
        | inr told ↦ inr (
            subst (λ fs. Reported test k fs) (sym f)
              (Reported-append_left test k report.failed _ told))
      ]

  chunk-Covered :
      (report r : DeleteObjectsReport) (chunk : List String) (s s' : S)
      → 1 ≤ length chunk
      → length chunk ≤ 1000
      → delete_chunk client report chunk s ≡ (ok r, s')
      → All (Covered r s') chunk
  chunk-Covered report r chunk s s' lo hi h =
      let (out, e, f) = delete_chunk_ok client report r chunk s s' h in
      All-map chunk
        (λ k. elim [
          | inl settled ↦ inl settled
          | inr told ↦ inr (
              subst (λ fs. Reported test k fs) (sym f)
                (Reported-append_right test k report.failed _ told))
        ])
        (accounts.answers chunk s s' out lo hi e)

  Covered-chunks :
      (chunks : List (List String)) (report r : DeleteObjectsReport) (s s' : S) (k : String)
      → delete_chunks client report chunks s ≡ (ok r, s')
      → Covered report s k
      → Covered r s' k
  unfolding delete_chunks
  Covered-chunks [] report r s s' k h c =
      let (p, q) = ok-pair h in subst (λ t. Covered r t k) q (subst (λ t. Covered t s k) p c)
  Covered-chunks (chunk ∷ rest) report r s s' k h c =
      let (q, u, e, f) =
        >>=-eq-ok (delete_chunk client report chunk) (λ q. delete_chunks client q rest) h in
      Covered-chunks rest q r u s' k f (Covered-chunk report q chunk s u k e c)

  chunks-Covered :
      (chunks : List (List String)) (report r : DeleteObjectsReport) (s s' : S)
      → All (λ c. (1 ≤ length c) × (length c ≤ 1000)) chunks
      → delete_chunks client report chunks s ≡ (ok r, s')
      → All (Covered r s') (concat chunks)
  unfolding delete_chunks concat
  chunks-Covered [] report r s s' sizes h = tt
  chunks-Covered (chunk ∷ rest) report r s s' sizes h =
      let (q, u, e, f) =
        >>=-eq-ok (delete_chunk client report chunk) (λ q. delete_chunks client q rest) h in
      All-append (Covered r s') chunk (concat rest)
        (All-map chunk (λ k c. Covered-chunks rest q r u s' k f c)
          (chunk-Covered report q chunk s u sizes.0.0 sizes.0.1 e))
        (chunks-Covered rest q r u s' sizes.1 f)

  -- A bulk deletion that returns a report accounts for every key, however many there are: the key is
  -- settled, or the report has a failure about it.
  pub delete_objects_with_report_covers :
      (keys : List String) (s s' : S) (r : DeleteObjectsReport)
      → delete_objects_with_report client keys s ≡ (ok r, s')
      → All (λ k. Settled s' k ⊎ Reported test k r.failed) keys
  unfolding delete_objects_with_report
  delete_objects_with_report_covers [] s s' r h = tt
  delete_objects_with_report_covers (k ∷ ks) s s' r h =
      subst (λ keys. All (Covered r s') keys) (concat-chunks 999 (k ∷ ks))
        (chunks-Covered (chunks 1000 (k ∷ ks)) report_default r s s'
          (chunks_partition 999 (k ∷ ks)).1 h)
