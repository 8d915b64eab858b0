-- ===== src/Types/Value/Order.antt =====
-- The comparisons of type/ are total orders.
use database_internals.Prelude.{ℕ, ◌^◌, ◌≡◌, ◌<◌, ◌≤◌, ◌↔◌, ◌⊎◌, refl, List, [], ◌∷◌, ◌++◌, arith}
use database_internals.Types.Value.{compare_int, compare_text, Sign, less, same, greater}

abbrev pub opposite : Sign → Sign
opposite less = greater
opposite same = same
opposite greater = less

-- Swapping the strings turns the answer round.
pub compare_text-swap : (a b : List ℕ) → compare_text b a ≡ opposite (compare_text a b)
unfolding compare_text
compare_text-swap [] [] = refl
compare_text-swap [] (b ∷ bs) = refl
compare_text-swap (a ∷ xs) [] = refl
compare_text-swap (a ∷ xs) (b ∷ bs) = ground (arith, compare_text-swap xs bs)

-- Only equal strings compare xs equal.
pub compare_text-same : (a b : List ℕ) → compare_text a b ≡ same → a ≡ b
unfolding compare_text
compare_text-same [] [] h = refl
compare_text-same [] (b ∷ bs) h = cc
compare_text-same (a ∷ xs) [] h = cc
compare_text-same (a ∷ xs) (b ∷ bs) h = ground (arith, compare_text-same xs bs)

compare_text_refl : (a : List ℕ) → compare_text a a ≡ same
unfolding compare_text
compare_text_refl [] = refl
compare_text_refl (a ∷ xs) = ground (arith, compare_text_refl xs)

-- The order of strings is transitive.
pub compare_text_trans :
    (a b c : List ℕ) → compare_text a b ≡ less → compare_text b c ≡ less → compare_text a c ≡ less
unfolding compare_text
compare_text_trans [] [] c h k = cc
compare_text_trans [] (b ∷ bs) [] h k = cc
compare_text_trans [] (b ∷ bs) (c ∷ cs) h k = refl
compare_text_trans (a ∷ xs) [] c h k = cc
compare_text_trans (a ∷ xs) (b ∷ bs) [] h k = cc
compare_text_trans (a ∷ xs) (b ∷ bs) (c ∷ cs) h k = ground (arith, compare_text_trans xs bs cs)

-- A string comes before every proper extension of it.
pub compare_text-prefix : (a : List ℕ) (b : ℕ) (bs : List ℕ) → compare_text a (a ++ b ∷ bs) ≡ less
unfolding compare_text
compare_text-prefix [] b bs = refl
compare_text-prefix (a ∷ xs) b bs = ground (arith, compare_text-prefix xs b bs)

-- The order of the numbers that two patterns of `int64_t` stand for: those with the top bit set are
-- the negative ones.
abbrev pub IsBelow : ℕ → ℕ → Type 0
IsBelow a b = ((2 ^ 63 ≤ a) × (b < 2 ^ 63)) ⊎ (((a < b) × (b < 2 ^ 63)) ⊎ ((2 ^ 63 ≤ a) × (a < b)))

-- `Compare` on NUMERIC values is the order of signed 64-bit numbers: -1 exactly when the first is
-- below the second, 1 exactly when the second is below the first, and 0 exactly when they are
-- equal.
compare_int_lem :
    (a b : ℕ)
    → a < 2 ^ 64
    → b < 2 ^ 64
    → ((compare_int a b ≡ less) ↔ IsBelow a b)
      × ((compare_int a b ≡ greater) ↔ IsBelow b a)
      × ((compare_int a b ≡ same) ↔ (a ≡ b))
unfolding compare_int
compare_int_lem a b ha hb = (
  (λ h. ground arith, λ h. ground arith),
  (λ h. ground arith, λ h. ground arith),
  (λ h. ground arith, λ h. ground arith),
)
