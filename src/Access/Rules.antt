-- ===== src/Access/Rules.antt =====
-- What the tests on paths have to do with each other, for patterns without wildcards.
use Prim.Native.Char.{Char, code}
use Prim.Native.String.{[], ◌∷◌, ◌++◌ as text_append}
use text.Mathlib.TextEquality.{Char-path}
use text.Mathlib.TextLemmas.{cons-append}
use cqwu_achievement_system.Prelude.{
  String, Bool, true, false, not, ◌&&◌, if◌then◌else◌, ◌≡◌, refl, sym, ap, arith, ◌⊎◌, inl, inr,
  ==→eq,
}
use cqwu_achievement_system.Access.Pattern.{
  same_char, starts_with, like, like_after, like_prefix, ends_in_slash, rtrim, trim_cons, any_rest,
  step,
}

-- No character of the pattern is a wildcard or the escape.
unfoldable pub is_literal : String → Bool
is_literal [] = true
is_literal (c ∷ cs) =
    not (same_char c "%") && not (same_char c "_") && not (same_char c "\\") && is_literal cs

any_rest_of_end : (text : String) → any_rest (like_after false []) text ≡ true
unfolding any_rest like_after
any_rest_of_end [] = refl
any_rest_of_end (c ∷ text) = ground (arith, any_rest_of_end text)

if-last :
    (a b c l x y z w : Bool)
    → (not a && not b && not c && l) ≡ true
    → (if a then x else if b then y else if c then z else w) ≡ w
if-last true b c l x y z w h = absurd (ground arith)
if-last false true c l x y z w h = absurd (ground arith)
if-last false false true l x y z w h = absurd (ground arith)
if-last false false false l x y z w h = refl

-- A character that is no wildcard stands for itself.
plain-like_after :
    (p : Char) (ps rest text : String)
    → is_literal (p ∷ ps) ≡ true
    → like_after false (p ∷ rest) text ≡ step (same_char p) (like_after false rest) text
unfolding like_after is_literal
plain-like_after p ps rest text h =
    if-last (same_char p "%") (same_char p "_") (same_char p "\\") (is_literal ps) _ _ _ _ h

is_literal-tail : (p : Char) (ps : String) → is_literal (p ∷ ps) ≡ true → is_literal ps ≡ true
unfolding is_literal
is_literal-tail p ps h =
    and-last (not (same_char p "%")) (not (same_char p "_")) (not (same_char p "\\"))
      (is_literal ps) h
  where
    and-last : (a b c d : Bool) → (a && b && c && d) ≡ true → d ≡ true
    and-last a b c d h = ground arith

-- Without wildcards, the database's prefix test is `starts_with`.
pub like_prefix-eq_starts_with :
    (pattern text : String)
    → is_literal pattern ≡ true
    → like_prefix pattern text ≡ starts_with pattern text
unfolding like_prefix like starts_with is_literal
like_prefix-eq_starts_with [] text h = any_rest_of_end text
like_prefix-eq_starts_with (p ∷ ps) [] h =
    rw (cons-append p ps "%", plain-like_after p ps (text_append ps "%") [] h) refl
like_prefix-eq_starts_with (p ∷ ps) (c ∷ text) h =
    rw
      (
        cons-append p ps "%",
        plain-like_after p ps (text_append ps "%") (c ∷ text) h,
        sym (like_prefix-eq_starts_with ps text (is_literal-tail p ps h)),
      )
      refl

pub starts_with_refl : (p : String) → starts_with p p ≡ true
unfolding starts_with
starts_with_refl [] = refl
starts_with_refl (c ∷ p) = ground (arith, starts_with_refl p)

pub starts_with_trans :
    (p q text : String)
    → starts_with p q ≡ true
    → starts_with q text ≡ true
    → starts_with p text ≡ true
unfolding starts_with
starts_with_trans [] q text h k = refl
starts_with_trans (a ∷ p) [] text h k = absurd (ground arith)
starts_with_trans (a ∷ p) (b ∷ q) [] h k = absurd (ground arith)
starts_with_trans (a ∷ p) (b ∷ q) (c ∷ text) h k = ground (arith, starts_with_trans p q text)

-- What ends in no slash is not trimmed.
pub rtrim-no_slash : (p : String) → ends_in_slash p ≡ false → rtrim p ≡ p
unfolding rtrim ends_in_slash
rtrim-no_slash [] h = refl
rtrim-no_slash (c ∷ []) h = ground arith
rtrim-no_slash (c ∷ d ∷ p) h = rw (rtrim-no_slash (d ∷ p) h) refl

same-path : (a b : Char) → same_char a b ≡ true → a ≡ b
same-path a b h = Char-path a b (==→eq (code a) (code b) h)

trim_cons-of_prefix :
    (a b : Char) (p r s : String)
    → a ≡ b
    → rtrim p ≡ s
    → (starts_with p r ≡ true) ⊎ (r ≡ s)
    → (starts_with (a ∷ p) (trim_cons b r) ≡ true) ⊎ (trim_cons b r ≡ trim_cons a s)
unfolding rtrim starts_with
trim_cons-of_prefix a b p r s e f (inr h) = inr (λ i. trim_cons (sym e i) (h i))
trim_cons-of_prefix a b p (d ∷ r) s e f (inl h) = inl (ground (arith, ap code e))
trim_cons-of_prefix a b [] [] s e f (inl h) = inr (λ i. trim_cons (sym e i) (f i))
trim_cons-of_prefix a b (c ∷ p) [] s e f (inl h) = absurd (ground arith)

pub rtrim-of_prefix :
    (p q : String) → starts_with p q ≡ true → (starts_with p (rtrim q) ≡ true) ⊎ (rtrim q ≡ rtrim p)
unfolding rtrim starts_with
rtrim-of_prefix [] q h = inl refl
rtrim-of_prefix (a ∷ p) [] h = absurd (ground arith)
rtrim-of_prefix (a ∷ p) (b ∷ q) h =
    trim_cons-of_prefix a b p (rtrim q) (rtrim p) (same-path a b (ground arith)) refl
      (rtrim-of_prefix p q (ground arith))
