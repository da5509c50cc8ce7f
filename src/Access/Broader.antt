-- ===== src/Access/Broader.antt =====
-- A grant that is refused because of a broader rule would have given the user nothing new.
use text.Mathlib.Text.{◌==◌ as text_eq}
use cqwu_achievement_system.Prelude.{
  ℕ, String, Bool, true, false, Option, none, some, List, [], ◌∷◌, str_eq, eq_iff, ◌&&◌, ◌||◌, any,
  ◌≡◌, refl, sym, ◌∙◌, ◌⊎◌, inl, inr, arith, All, Bool-cases, Option-cases,
}
use cqwu_achievement_system.Effect.{
  continue, ok, err, Fault, works, refused, reply_lost, under, next_fault, later_faults,
}
use cqwu_achievement_system.Errors.{unexpected_error, api_rule_conflict}
use cqwu_achievement_system.Access.{AccessRule, AccessDb, statement}
use cqwu_achievement_system.Access.Statements.{
  str_eq→eq, and_right, and_both, or-cases, or_right, or_left,
}
use cqwu_achievement_system.Access.Pattern.{starts_with, like_prefix, ends_in_slash, rtrim}
use cqwu_achievement_system.Access.Rules.{
  is_literal, like_prefix-eq_starts_with, starts_with_refl, starts_with_trans, rtrim-of_prefix,
  rtrim-no_slash,
}
use cqwu_achievement_system.Access.Grants.{
  GrantRequest, is_broader, outlasts, find_rule, on_conflict, check_api_rule_conflict, new_rule,
}
use cqwu_achievement_system.Access.Guard.{covers, permits, in_force}

pub covers-starts_with :
    (p path : String) → is_literal p ≡ true → starts_with p path ≡ true → covers p path ≡ true
unfolding covers
covers-starts_with p path l h = or_right _ _ (like_prefix-eq_starts_with p path l ∙ h)

covers-rtrim : (p path : String) → ends_in_slash p ≡ true → path ≡ rtrim p → covers p path ≡ true
unfolding covers
covers-rtrim p path c e = or_left _ _ (and_both _ _ c ((eq_iff path (rtrim p)).1 e))

-- For patterns without wildcards, a longer pattern covers no more.
pub covers-of_prefix :
    (p q path : String)
    → is_literal p ≡ true
    → is_literal q ≡ true
    → starts_with p q ≡ true
    → covers q path ≡ true
    → covers p path ≡ true
unfolding covers
covers-of_prefix p q path lp lq h k =
    elim (or-cases (ends_in_slash q && str_eq path (rtrim q)) (like_prefix q path) k) [
      | inr l ↦
          covers-starts_with p path lp
            (starts_with_trans p q path h (sym (like_prefix-eq_starts_with q path lq) ∙ l))
      | inl l ↦
          trimmed (str_eq→eq path (rtrim q) (and_right (ends_in_slash q) _ l))
            (rtrim-of_prefix p q h) (Bool-cases (ends_in_slash p))
    ]
  where
    trimmed :
        path ≡ rtrim q
        → (starts_with p (rtrim q) ≡ true) ⊎ (rtrim q ≡ rtrim p)
        → (ends_in_slash p ≡ true) ⊎ (ends_in_slash p ≡ false)
        → covers p path ≡ true
    trimmed e (inl s) c = covers-starts_with p path lp (rw e s)
    trimmed e (inr s) (inl c) = covers-rtrim p path c (e ∙ s)
    trimmed e (inr s) (inr c) =
        covers-starts_with p path lp (rw (e ∙ s ∙ rtrim-no_slash p c) (starts_with_refl p))

in_force-outlasts :
    (now : ℕ) (e t : Option ℕ) → outlasts e t ≡ true → in_force now t ≡ true → in_force now e ≡ true
in_force-outlasts now none t h k = refl
in_force-outlasts now (some e) none h k = absurd (ground arith)
in_force-outlasts now (some e) (some t) h k = ground arith

method-broader :
    (a b m : String)
    → (str_eq a "ALL" || str_eq a b) ≡ true
    → (str_eq b "ALL" || str_eq b m) ≡ true
    → (str_eq a "ALL" || str_eq a m) ≡ true
method-broader a b m h k = elim (or-cases (str_eq a "ALL") (str_eq a b) h) [
  | inl l ↦ or_left _ _ l
  | inr l ↦ rw (str_eq→eq a b l) k
]

combine :
    (u l m o v n i c n2 i2 c2 : Bool)
    → (u && l && m && o) ≡ true
    → (v && n && i && c) ≡ true
    → (m ≡ true → n ≡ true → n2 ≡ true)
    → (o ≡ true → i ≡ true → i2 ≡ true)
    → (l ≡ true → c ≡ true → c2 ≡ true)
    → (u && n2 && i2 && c2) ≡ true
combine true true true true true true true true n2 i2 c2 h k f g j =
    ground (arith, f refl refl, g refl refl, j refl refl)
combine false l m o v n i c n2 i2 c2 h k f g j = absurd (ground arith)
combine true false m o v n i c n2 i2 c2 h k f g j = absurd (ground arith)
combine true true false o v n i c n2 i2 c2 h k f g j = absurd (ground arith)
combine true true true false v n i c n2 i2 c2 h k f g j = absurd (ground arith)
combine true true true true false n i c n2 i2 c2 h k f g j = absurd (ground arith)
combine true true true true true false i c n2 i2 c2 h k f g j = absurd (ground arith)
combine true true true true true true false c n2 i2 c2 h k f g j = absurd (ground arith)
combine true true true true true true true false n2 i2 c2 h k f g j = absurd (ground arith)

-- A broader rule permits what the rule that is asked for would permit.
broader-permits :
    (req : GrantRequest) (by : String) (w : AccessDb) (r : AccessRule) (now : ℕ)
    (path method : String)
    → is_literal r.api_pattern ≡ true
    → is_literal req.api_pattern ≡ true
    → is_broader req r ≡ true
    → permits now req.user_id path method (new_rule req by w) ≡ true
    → permits now req.user_id path method r ≡ true
unfolding is_broader permits new_rule
broader-permits req by w r now path method lr lq b p =
    combine (str_eq r.user_id req.user_id) (like_prefix r.api_pattern req.api_pattern) _ _ _ _ _ _ _
      _ _ b p (method-broader r.http_method _ method)
      (in_force-outlasts now r.expires_at req.expires_at)
      (λ l c.
        covers-of_prefix r.api_pattern req.api_pattern path lr lq
          (sym (like_prefix-eq_starts_with r.api_pattern req.api_pattern lr) ∙ l) c)

-- A row that is found passes the test; so some row passes what follows from it.
find_rule-any :
    (f g : AccessRule → Bool) (rs : List AccessRule) (r : AccessRule)
    → All (λ x. f x ≡ true → g x ≡ true) rs
    → find_rule f rs ≡ some r
    → any g rs ≡ true
find_rule-any f g [] r h e = absurd (ground arith)
find_rule-any f g (x ∷ xs) r h e = elim (Bool-cases (f x)) [
  | inl t ↦ or_left _ _ (h.0 t)
  | inr t ↦ or_right _ _ (find_rule-any f g xs r h.1 (ground arith))
]

-- The check reports a conflict only for a rule that it finds.
conflict-found :
    (req : GrantRequest) (w w' : AccessDb) (id : String)
    → check_api_rule_conflict req w ≡ (err (api_rule_conflict id), w')
    → (r : AccessRule) × (find_rule (is_broader req) w.rules ≡ some r)
unfolding check_api_rule_conflict statement
conflict-found req w w' id e = cases (next_fault w.faults) e
  where
    cases :
        (f : Fault)
        → continue
            (λ row. on_conflict row)
            (under
              (unexpected_error "database")
              (λ u. (ok (find_rule (is_broader req) u.rules), u))
              f
              (record w { faults = later_faults w.faults }))
          ≡ (err (api_rule_conflict id), w')
        → (r : AccessRule) × (find_rule (is_broader req) w.rules ≡ some r)
    cases works h = elim (Option-cases (find_rule (is_broader req) w.rules)) [
      | inr r ↦ r
      | inl n ↦ absurd (ground arith)
    ]
    cases refused h = absurd (cc h)
    cases reply_lost h = absurd (cc h)

All-broader :
    (req : GrantRequest) (by : String) (w : AccessDb) (now : ℕ) (path method : String)
    (rs : List AccessRule)
    → is_literal req.api_pattern ≡ true
    → permits now req.user_id path method (new_rule req by w) ≡ true
    → All (λ r. is_literal r.api_pattern ≡ true) rs
    → All (λ r. is_broader req r ≡ true → permits now req.user_id path method r ≡ true) rs
All-broader req by w now path method [] l p h = tt
All-broader req by w now path method (r ∷ rs) l p h = (
  λ b. broader-permits req by w r now path method h.0 l b p,
  All-broader req by w now path method rs l p h.1,
)

-- If no pattern holds a wildcard and a grant is refused because of a broader rule, then whatever
-- request of the user the rule asked for would permit, at whatever time, is permitted by the rules
-- that there are.
pub refused-permits :
    (req : GrantRequest) (by : String) (w w' : AccessDb) (id : String) (now : ℕ)
    (path method : String)
    → All (λ r. is_literal r.api_pattern ≡ true) w.rules
    → is_literal req.api_pattern ≡ true
    → check_api_rule_conflict req w ≡ (err (api_rule_conflict id), w')
    → permits now req.user_id path method (new_rule req by w) ≡ true
    → any (permits now req.user_id path method) w.rules ≡ true
refused-permits req by w w' id now path method literal l e p =
    let (r, f) = conflict-found req w w' id e in
    find_rule-any (is_broader req) (permits now req.user_id path method) w.rules r
      (All-broader req by w now path method w.rules l p literal) f
