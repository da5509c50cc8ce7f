-- ===== src/Access/Statements.antt =====
-- What a statement that succeeds has done.
use cqwu_achievement_system.Prelude.{String, true, str_eq, eq_iff, ◌≡◌}
pub use cqwu_achievement_system.Prelude.{
  and_left, and_right, and_both, or-cases, or_right, or_left, all_four, all_three, each_of_three,
}
use cqwu_achievement_system.Effect.{
  Result, ok, Fault, works, refused, reply_lost, under, next_fault, later_faults,
}
use cqwu_achievement_system.Errors.{AppError, unexpected_error}
use cqwu_achievement_system.Access.{AccessDb, statement}

abbrev pub after_statement : AccessDb → AccessDb
after_statement w = record w { faults = later_faults w.faults }

pub statement_ok :
    {A : Type 0} (run : AccessDb → Result AppError A × AccessDb) (w w' : AccessDb) (a : A)
    → statement run w ≡ (ok a, w')
    → run (after_statement w) ≡ (ok a, w')
unfolding statement
statement_ok {A} run w w' a h = cases (next_fault w.faults) h
  where
    cases :
        (f : Fault)
        → under (unexpected_error "database") run f (after_statement w) ≡ (ok a, w')
        → run (after_statement w) ≡ (ok a, w')
    cases works e = e
    cases refused e = absurd (cc e)
    cases reply_lost e = absurd (cc e)

pub str_eq→eq : (a b : String) → str_eq a b ≡ true → a ≡ b
str_eq→eq a b h = (eq_iff a b).0 h
