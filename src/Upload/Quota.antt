-- ===== src/Upload/Quota.antt =====
-- No field of an upload session gives more uploads than its quota.
use cqwu_achievement_system.Prelude.{
  ℕ, suc, ◌+◌, ◌≤◌, String, Bool, true, false, Option, none, some, List, [], ◌∷◌, str_eq, eq_iff,
  ◌==◌, ◌&&◌, ltb, if◌then◌else◌, ◌≡◌, refl, sym, ap, subst, arith, Bool-cases, inl, inr,
}
use cqwu_achievement_system.Effect.{
  Result, ok, err, Fault, works, refused, reply_lost, next_fault, later_faults,
}
use cqwu_achievement_system.Schema.{SchemaFileFieldConfig, field_of}
use cqwu_achievement_system.Upload.{
  UploadSession, Entry, Cache, session_of, unexpired, set_session, set_field, spent, Script,
  session_not_found, forbidden_user, field_not_found, quota_exhausted, other_failure, ScriptError,
  on_field, on_session, deduct_quota, execute_script, on_script, try_to_get_field_quota,
}

abbrev pub quota_of : Option SchemaFileFieldConfig → ℕ
quota_of none = 0
quota_of (some c) = c.quota

abbrev pub field_quota : String → Option Entry → ℕ
unfolding field_of
field_quota field none = 0
field_quota field (some e) = quota_of (field_of field e.session.schema_file_configs)

-- What is left of a field's quota.
unfoldable pub remaining : String → String → Cache → ℕ
unfolding field_quota session_of
remaining id field w = field_quota field (session_of id w.entries)

-- A request for a place: the session, the field and the user, and the time since the one before.
pub record Request : Type 0 where
  pub session_id : String
  pub field : String
  pub user : String
  pub elapsed : ℕ

abbrev is_ok : {E A : Type 0} → Result E A → Bool
is_ok (ok a) = true
is_ok (err e) = false

-- How many of the requests about a field of a session are granted.
unfoldable pub granted : String → String → List Request → Cache → ℕ
unfolding try_to_get_field_quota
granted id field [] w = 0
granted id field (r ∷ rs) w =
    let (res, w') =
      try_to_get_field_quota r.session_id r.field r.user (record w { now = w.now + r.elapsed }) in
    let rest = granted id field rs w' in
    if str_eq r.session_id id && str_eq r.field field && is_ok res then suc rest else rest

some-inj : {A : Type 0} {a b : A} → some a ≡ some b → a ≡ b
some-inj h = ground arith

moved : (a b c : String) → str_eq b c ≡ false → str_eq a b ≡ true → str_eq a c ≡ false
moved a b c n e = subst (λ t. str_eq t c ≡ false) (sym ((eq_iff a b).0 e)) n

set_field-same :
    (f : String) (c d : SchemaFileFieldConfig) (ps : List (String × SchemaFileFieldConfig))
    → field_of f ps ≡ some c
    → field_of f (set_field f d ps) ≡ some d
unfolding field_of set_field
set_field-same f c d [] h = absurd (cc h)
set_field-same f c d (p ∷ ps) h = elim (Bool-cases (str_eq p.0 f)) [
  | inl e ↦ rw (e, e) refl
  | inr e ↦ rw (e, e) (set_field-same f c d ps (rw e at h))
]

set_field-other :
    (f g : String) (d : SchemaFileFieldConfig) (ps : List (String × SchemaFileFieldConfig))
    → str_eq f g ≡ false
    → field_of g (set_field f d ps) ≡ field_of g ps
unfolding field_of set_field
set_field-other f g d [] n = refl
set_field-other f g d (p ∷ ps) n =
    let m = moved p.0 f g n in
    elim (Bool-cases (str_eq p.0 f)) [
      | inl e ↦ rw (e, m e) refl
      | inr e ↦ rw (e, set_field-other f g d ps n) refl
    ]

set_session-same :
    (id : String) (s : UploadSession) (t : ℕ) (es : List Entry) (e : Entry)
    → session_of id es ≡ some e
    → session_of id (set_session id s t es) ≡ some (record e { session = s; expires_at = t })
unfolding session_of set_session
set_session-same id s t [] e h = absurd (cc h)
set_session-same id s t (x ∷ xs) e h = elim (Bool-cases (str_eq x.session_id id)) [
  | inl q ↦
      rw (q, q)
        (ap (λ (z : Entry). some (record z { session = s; expires_at = t })) (some-inj (rw q at h)))
  | inr q ↦ rw (q, q) (set_session-same id s t xs e (rw q at h))
]

set_session-other :
    (id other : String) (s : UploadSession) (t : ℕ) (es : List Entry)
    → str_eq id other ≡ false
    → session_of other (set_session id s t es) ≡ session_of other es
unfolding session_of set_session
set_session-other id other s t [] n = refl
set_session-other id other s t (x ∷ xs) n =
    let m = moved x.session_id id other n in
    elim (Bool-cases (str_eq x.session_id id)) [
      | inl q ↦ rw (q, m q) refl
      | inr q ↦ rw (q, set_session-other id other s t xs n) refl
    ]

abbrev one_if : Bool → ℕ
one_if true = 1
one_if false = 0

-- A place that is granted is taken from the field's quota, and from no other.
field_spent :
    (fld field : String) (c : SchemaFileFieldConfig) (ps : List (String × SchemaFileFieldConfig))
    → field_of fld ps ≡ some c
    → (c.quota == 0) ≡ false
    → one_if (str_eq fld field) + quota_of (field_of field (set_field fld (spent c) ps))
      ≤ quota_of (field_of field ps)
field_spent fld field c ps h z = elim (Bool-cases (str_eq fld field)) [
  | inr n ↦ rw (n, set_field-other fld field (spent c) ps n) (omega arith)
  | inl e ↦ rw e (
      subst (λ t. 1 + quota_of (field_of t (set_field fld (spent c) ps)) ≤ quota_of (field_of t ps))
        ((eq_iff fld field).0 e) (rw (set_field-same fld c (spent c) ps h, h) (ground arith)))
]

session_spent :
    (sid fld id field : String) (e : Entry) (c : SchemaFileFieldConfig) (t : ℕ) (es : List Entry)
    → session_of sid es ≡ some e
    → field_of fld e.session.schema_file_configs ≡ some c
    → (c.quota == 0) ≡ false
    → one_if (str_eq sid id && str_eq fld field)
        + field_quota field (
            session_of id (
              set_session sid
                (record e.session {
                  schema_file_configs = set_field fld (spent c) e.session.schema_file_configs;
                })
                t
                es))
      ≤ field_quota field (session_of id es)
unfolding field_quota
session_spent sid fld id field e c t es h k z = elim (Bool-cases (str_eq sid id)) [
  | inr n ↦ rw (n, set_session-other sid id _ t es n) (omega arith)
  | inl q ↦ rw q (
      subst
        (λ i.
          one_if (str_eq fld field)
            + field_quota field (
                session_of i (
                  set_session sid
                    (record e.session {
                      schema_file_configs = set_field fld (spent c) e.session.schema_file_configs;
                    })
                    t es))
          ≤ field_quota field (session_of i es))
        ((eq_iff sid id).0 q)
        (rw
          (
            set_session-same sid
                (record e.session {
                  schema_file_configs = set_field fld (spent c) e.session.schema_file_configs;
                })
                t es e h,
            h,
          )
          (field_spent fld field c _ k z)))
]

-- The script pays for what it grants.
abbrev Pays : String → String → String → String → Cache → Script → Type 0
Pays sid fld id field w p =
    one_if (str_eq sid id && str_eq fld field && is_ok p.0) + remaining id field p.1
    ≤ remaining id field w

refused-Pays :
    (sid fld id field : String) (w : Cache) (x : Script)
    → is_ok x.0 ≡ false
    → remaining id field x.1 ≡ remaining id field w
    → Pays sid fld id field w x
refused-Pays sid fld id field w x n e = rw (n, e) (nothing (str_eq sid id && str_eq fld field))
  where
    nothing : (b : Bool) {k : ℕ} → one_if (b && false) + k ≤ k
    nothing true = omega arith
    nothing false = omega arith

deduct-Pays :
    (sid user fld id field : String) (w : Cache)
    → Pays sid fld id field w (deduct_quota sid user fld w)
unfolding deduct_quota remaining
deduct-Pays sid user fld id field w = session (session_of sid w.entries) refl
  where
    pick :
        (b : Bool) (x y : Script)
        → (b ≡ true → Pays sid fld id field w x)
        → (b ≡ false → Pays sid fld id field w y)
        → Pays sid fld id field w (if b then x else y)
    pick true x y h k = h refl
    pick false x y h k = k refl

    paid : (b : Bool) (m n : ℕ) → one_if b + m ≤ n → one_if (b && true) + m ≤ n
    paid true m n h = h
    paid false m n h = h

    field_case :
        (e : Entry) (o : Option SchemaFileFieldConfig)
        → session_of sid w.entries ≡ some e
        → field_of fld e.session.schema_file_configs ≡ o
        → Pays sid fld id field w (on_field sid user fld w e.session o)
    field_case e none h k = refused-Pays sid fld id field w (err field_not_found, w) refl refl
    field_case e (some c) h k =
        pick (c.quota == 0) (err quota_exhausted, w)
          (
            ok (spent c),
            record w {
              entries =
                  set_session sid
                    (record e.session {
                      schema_file_configs = set_field fld (spent c) e.session.schema_file_configs;
                    })
                    (w.now + 1800) w.entries;
            },
          )
          (λ z. refused-Pays sid fld id field w (err quota_exhausted, w) refl refl)
          (λ z.
            paid (str_eq sid id && str_eq fld field) _ _
              (session_spent sid fld id field e c (w.now + 1800) w.entries h k z))

    session :
        (o : Option Entry)
        → session_of sid w.entries ≡ o
        → Pays sid fld id field w (on_session sid user fld w (unexpired w.now o))
    session none h = refused-Pays sid fld id field w (err session_not_found, w) refl refl
    session (some e) h = elim (Bool-cases (ltb w.now e.expires_at)) [
      | inr n ↦ rw n (refused-Pays sid fld id field w (err session_not_found, w) refl refl)
      | inl n ↦ rw n (
          pick (str_eq e.session.user_id user)
            (on_field sid user fld w e.session (field_of fld e.session.schema_file_configs))
            (err forbidden_user, w)
            (λ m. field_case e (field_of fld e.session.schema_file_configs) h refl)
            (λ m. refused-Pays sid fld id field w (err forbidden_user, w) refl refl))
    ]

-- One request pays for what it is granted, whatever happens to its reply.
request-Pays :
    (sid fld user id field : String) (w : Cache)
    → one_if (str_eq sid id && str_eq fld field && is_ok (try_to_get_field_quota sid fld user w).0)
        + remaining id field (try_to_get_field_quota sid fld user w).1
      ≤ remaining id field w
unfolding try_to_get_field_quota remaining
request-Pays sid fld user id field w = cases (next_fault w.faults)
  where
    start : Cache
    start = record w { faults = later_faults w.faults }

    script : Script
    script = deduct_quota sid user fld start

    keeps_ok : (r : Result ScriptError SchemaFileFieldConfig) → is_ok (on_script r) ≡ is_ok r
    keeps_ok (ok c) = refl
    keeps_ok (err session_not_found) = refl
    keeps_ok (err forbidden_user) = refl
    keeps_ok (err field_not_found) = refl
    keeps_ok (err quota_exhausted) = refl
    keeps_ok (err other_failure) = refl

    lost : (b c : Bool) (m n : ℕ) → one_if (b && c) + m ≤ n → one_if (b && false) + m ≤ n
    lost true true m n h = omega (arith, h)
    lost true false m n h = h
    lost false c m n h = h

    none_left : (b : Bool) (n : ℕ) → one_if (b && false) + n ≤ n
    none_left true n = omega arith
    none_left false n = omega arith

    cases :
        (f : Fault)
        → one_if (
              str_eq sid id
              && str_eq fld field
              && is_ok (on_script (execute_script (deduct_quota sid user fld) f start).0))
            + remaining id field (execute_script (deduct_quota sid user fld) f start).1
          ≤ remaining id field start
    cases works = rw (keeps_ok script.0) (deduct-Pays sid user fld id field start)
    cases refused = none_left (str_eq sid id && str_eq fld field) _
    cases reply_lost =
        lost (str_eq sid id && str_eq fld field) (is_ok script.0) _ _
          (deduct-Pays sid user fld id field start)

-- Whatever requests are made, by whom and when, and whatever replies are lost, the requests about one
-- field of one session that are granted are no more than what was left of its quota.
pub granted-le-remaining :
    (id field : String) (requests : List Request) (w : Cache)
    → granted id field requests w ≤ remaining id field w
unfolding granted remaining
granted-le-remaining id field [] w = omega arith
granted-le-remaining id field (r ∷ rs) w =
    let now = record w { now = w.now + r.elapsed } in
    let rest =
      granted-le-remaining id field rs (try_to_get_field_quota r.session_id r.field r.user now).1 in
    counted
      (str_eq r.session_id id
        && str_eq r.field field
        && is_ok (try_to_get_field_quota r.session_id r.field r.user now).0)
      _ _ _ rest (request-Pays r.session_id r.field r.user id field now)
  where
    counted : (b : Bool) (g m n : ℕ) → g ≤ m → one_if b + m ≤ n → (if b then suc g else g) ≤ n
    counted true g m n h k = omega (arith, h, k)
    counted false g m n h k = omega (arith, h, k)
