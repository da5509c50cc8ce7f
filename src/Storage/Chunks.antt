-- ===== src/Storage/Chunks.antt =====
-- The chunks of a bulk deletion.
use cqwu_achievement_system.Prelude.{
  ℕ, zero, suc, ◌≤◌, ◌≡◌, refl, ap, List, [], ◌∷◌, ◌++◌, arith, drop, length, All, length-take-le,
  take-append-drop,
}
use cqwu_achievement_system.Storage.{chunks_on, chunks}

module _ {A : Type 0} where
  unfoldable pub concat : List (List A) → List A
  concat [] = []
  concat (xs ∷ xss) = xs ++ concat xss

  length-drop-le : (n : ℕ) (xs : List A) → length (drop n xs) ≤ length xs
  length-drop-le zero xs = omega arith
  length-drop-le (suc n) [] = omega arith
  length-drop-le (suc n) (x ∷ xs) = omega (arith, length-drop-le n xs)

  concat-chunks_on :
      (fuel n : ℕ) (xs : List A) → length xs ≤ fuel → concat (chunks_on fuel (suc n) xs) ≡ xs
  unfolding chunks_on concat
  concat-chunks_on zero n [] h = refl
  concat-chunks_on zero n (x ∷ xs) h = absurd (omega arith)
  concat-chunks_on (suc fuel) n [] h = refl
  concat-chunks_on (suc fuel) n (x ∷ xs) h =
      rw (concat-chunks_on fuel n (drop n xs) (omega (arith, length-drop-le n xs)))
        (ap (◌∷◌ x) (take-append-drop n xs))

  chunks_on_bounded :
      (fuel n : ℕ) (xs : List A)
      → All (λ c. (1 ≤ length c) × (length c ≤ suc n)) (chunks_on fuel (suc n) xs)
  unfolding chunks_on
  chunks_on_bounded zero n xs = tt
  chunks_on_bounded (suc fuel) n [] = tt
  chunks_on_bounded (suc fuel) n (x ∷ xs) =
      ((omega arith, omega (arith, length-take-le n xs)), chunks_on_bounded fuel n (drop n xs))

  pub concat-chunks : (n : ℕ) (xs : List A) → concat (chunks (suc n) xs) ≡ xs
  unfolding chunks
  concat-chunks n xs = concat-chunks_on (length xs) n xs (omega arith)

  -- The chunks of a list, for a size that is not 0, are the list in order with nothing lost, and
  -- each is no longer than the size and not empty.
  pub chunks_partition :
      (n : ℕ) (xs : List A)
      → (concat (chunks (suc n) xs) ≡ xs)
        × All (λ c. (1 ≤ length c) × (length c ≤ suc n)) (chunks (suc n) xs)
  unfolding chunks
  chunks_partition n xs = (concat-chunks n xs, chunks_on_bounded (length xs) n xs)
