-- ===== src/Tests/Storage.antt =====
-- The theorems on the object storage, at concrete inputs.
use cqwu_achievement_system.Prelude.{
  ◌≡◌, refl, subst, ◌⊎◌, inl, inr, Bool, true, String, none, some, List, [], ◌∷◌, map, any, str_eq,
  eq_iff, All, or_left, or_right, Bool-cases, sym, arith,
}
use cqwu_achievement_system.Effect.{Result, ok, err}
use cqwu_achievement_system.Storage.{
  ErrorEntry, failure_of, Client, DeleteOutput, SdkError, DeleteObjectFailure, DeleteObjectsReport,
  delete_objects_with_report,
}
use cqwu_achievement_system.Storage.Report.{Accounts, Reported, delete_objects_with_report_covers}

abbrev entry : String → ErrorEntry
entry k = record { key = some k; code = some "AccessDenied"; message = none }

-- A service that refuses every key.
abbrev pub refusing : Client (Unit {0})
refusing = record {
  refused = λ k. none;
  delete_objects = λ keys s. (ok (record { deleted = []; errors = map entry keys }), s);
}

abbrev pub Never : Unit {0} → String → Type 0
Never s k = ⊥

abbrev denied : DeleteObjectFailure
denied = record { key = "a"; code = some "AccessDenied"; message = none }

abbrev pub any_failure : DeleteObjectFailure → Bool
any_failure f = true

All-any :
    {P : String → Type 0} (keys : List String)
    → ((k : String) → any (str_eq k) keys ≡ true → P k)
    → All P keys
All-any [] f = tt
All-any (k ∷ ks) f =
    (f k (or_left _ _ ((eq_iff k k).1 refl)), All-any ks (λ j e. f j (or_right _ _ e)))

-- The failure of a key stands among the errors of an answer.
abbrev ReportedIn : (DeleteObjectFailure → Bool) → String → Result SdkError DeleteOutput → Type 0
ReportedIn test k (ok out) = Reported test k (map failure_of out.errors)
ReportedIn test k (err e) = ⊥

names-All :
    (keys : List String)
    → All (λ k. Never tt k ⊎ Reported any_failure k (map failure_of (map entry keys))) keys
unfolding failure_of
names-All keys = All-any keys (λ k m. inr (named k keys m))
  where
    named :
        (k : String) (ks : List String)
        → any (str_eq k) ks ≡ true
        → Reported any_failure k (map failure_of (map entry ks))
    named k [] m = absurd (ground arith)
    named k (x ∷ xs) m = elim (Bool-cases (str_eq k x)) [
      | inl e ↦ inl (sym ((eq_iff k x).0 e), refl)
      | inr e ↦ inr (named k xs (ground arith))
    ]

pub refusing-Accounts : Accounts refusing any_failure Never
refusing-Accounts = record {
  answers = λ keys s s' out lo hi e.
      subst
        (λ (p : Result SdkError DeleteOutput × Unit {0}).
          All (λ k. Never p.1 k ⊎ ReportedIn any_failure k p.0) keys)
        e (names-All keys);
  persists = λ keys s k h. h;
}

abbrev report : DeleteObjectsReport
report = record { deleted_keys = []; failed = denied ∷ [] }

refuses_one : delete_objects_with_report refusing ("a" ∷ []) tt ≡ (ok report, tt)
unfolding delete_objects_with_report
refuses_one = refl

delete_objects_with_report_covers_example :
    All (λ k. Never tt k ⊎ Reported any_failure k report.failed) ("a" ∷ [])
delete_objects_with_report_covers_example =
    delete_objects_with_report_covers refusing any_failure Never refusing-Accounts ("a" ∷ []) tt tt
      report refuses_one
