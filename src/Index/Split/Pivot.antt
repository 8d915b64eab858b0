-- ===== src/Index/Split/Pivot.antt =====
-- Where the split of a leaf starts: the first live slot from the middle on, round the end of the
-- slot numbers.
use native.Mathlib.Decide.{dec_lt, ℕ_discrete}
use database_internals.Prelude.{
  ℕ, zero, suc, ◌+◌, ◌-◌, ◌/◌, ◌^◌, ◌≡◌, ◌<◌, ◌≤◌, ◌⊎◌, inl, inr, ◌∙◌, ap, refl, arith, true, false,
  Bool-cases, ok, subst,
}
use database_internals.Memory.{Memory}
use database_internals.Storage.SlottedPage.{slot_count}
use database_internals.Storage.SlottedPage.Layout.{get_record-past}
use database_internals.Index.Search.{next_slot}
use database_internals.Index.Tree.{is_live}
use database_internals.Index.Split.{first_live}

-- No slot from `s` on, and before `e`, is live.
abbrev pub IsDead : Memory → ℕ → ℕ → Type 0
IsDead page s e = (i : ℕ) → s ≤ i → i < e → is_live page i ≡ false

-- The first live slot among `k`, if there is one.
search_live :
    (page : Memory) (k s : ℕ)
    → ((p : ℕ) × (s ≤ p) × (p < s + k) × (is_live page p ≡ true) × IsDead page s p)
      ⊎ IsDead page s (s + k)
search_live page zero s = inr (λ i a b. absurd (omega arith))
search_live page (suc k) s = elim (Bool-cases (is_live page s)) [
  | inl l ↦ inl (s, omega arith, omega arith, l, λ i a b. absurd (omega arith))
  | inr d ↦ elim (search_live page k (suc s)) [
    | inl (p, lo, hi, l, e) ↦ inl (p, omega arith, omega arith, l, λ i a b. further d e i a b)
    | inr e ↦ inr (λ i a b. further d e i a (omega arith))
  ]
]
  where
    further : {n : ℕ} → is_live page s ≡ false → IsDead page (suc s) n → IsDead page s n
    further d e i a b = elim (ℕ_discrete s i) [
      | yes f ↦ subst (λ j. is_live page j ≡ false) f d
      | no f ↦ e i (omega (arith, f)) b
    ]

first_live-finds :
    (page : Memory) (d fuel s p : ℕ)
    → s + d ≡ p
    → p < 2 ^ 16
    → d < fuel
    → is_live page p ≡ true
    → IsDead page s p
    → first_live page fuel s ≡ ok p
unfolding first_live
first_live-finds page d zero s p e h f l x = absurd (omega arith)
first_live-finds page zero (suc fuel) s p e h f l x =
    let same : s ≡ p = omega arith in rw (first_live, ap (is_live page) same ∙ l) (ap ok same)
first_live-finds page (suc d) (suc fuel) s p e h f l x =
    let n : next_slot s ≡ suc s = omega arith in
    rw (first_live, x s (omega arith) (omega arith), n)
      (first_live-finds page d fuel (suc s) p (omega arith) h (omega arith) l
        (λ i a b. x i (omega arith) b))

first_live-wraps :
    (page : Memory) (d fuel rest s : ℕ)
    → s + suc d ≡ 2 ^ 16
    → fuel ≡ suc d + rest
    → IsDead page s (2 ^ 16)
    → first_live page fuel s ≡ first_live page rest 0
unfolding first_live
first_live-wraps page d zero rest s e f x = absurd (omega arith)
first_live-wraps page zero (suc fuel) rest s e f x =
    let n : next_slot s ≡ 0 = omega arith in
    rw (first_live, x s (omega arith) (omega arith), n)
      (ap (λ k. first_live page k 0) (omega arith))
first_live-wraps page (suc d) (suc fuel) rest s e f x =
    let n : next_slot s ≡ suc s = omega arith in
    rw (first_live, x s (omega arith) (omega arith), n)
      (first_live-wraps page d fuel rest (suc s) (omega arith) (omega arith)
        (λ i a b. x i (omega arith) b))

is_live-past : (page : Memory) (i : ℕ) → slot_count page ≤ i → is_live page i ≡ false
unfolding is_live
is_live-past page i h = rw (is_live, get_record-past page i h) refl

-- The slot that the split starts from.
pub record IsPivot (page : Memory) (pivot : ℕ) : Type 0 where
  pub below : pivot < slot_count page
  pub live : is_live page pivot ≡ true
  pub first :
      ((slot_count page / 2 ≤ pivot) × IsDead page (slot_count page / 2) pivot)
      ⊎ ((pivot < slot_count page / 2)
          × IsDead page (slot_count page / 2) (slot_count page)
          × IsDead page 0 pivot)

pub first_live-IsPivot :
    (page : Memory) (j : ℕ)
    → slot_count page < 2 ^ 16
    → j < slot_count page
    → is_live page j ≡ true
    → (pivot : ℕ) × (first_live page (2 ^ 16) (slot_count page / 2) ≡ ok pivot) × IsPivot page pivot
first_live-IsPivot page j small h l =
    let middle = slot_count page / 2 in
    let upper : middle + (slot_count page - middle) ≡ slot_count page = omega arith in
    elim (search_live page (slot_count page - middle) middle) [
      | inl (p, lo, hi, k, e) ↦ (
        p,
        first_live-finds page (p - middle) (2 ^ 16) middle p (omega arith) (omega arith)
            (omega arith) k e,
        record { below = omega (arith, upper); live = k; first = inl (lo, e) },
      )
      | inr e ↦
          let none_above : IsDead page middle (slot_count page) =
            subst (IsDead page middle) upper e in
          elim (search_live page middle 0) [
            | inl (p, lo, hi, k, x) ↦ (
              p,
              first_live-wraps page (2 ^ 16 - middle - 1) (2 ^ 16) middle middle (omega arith)
                    (omega arith) (past none_above)
                  ∙ first_live-finds page p middle 0 p (omega arith) (omega arith) (omega arith) k
                      x,
              record { below = omega arith; live = k; first = inr (omega arith, none_above, x) },
            )
            | inr x ↦ absurd (elsewhere none_above x)
          ]
    ]
  where
    past :
        IsDead page (slot_count page / 2) (slot_count page)
        → IsDead page (slot_count page / 2) (2 ^ 16)
    past e i a b = elim (dec_lt i (slot_count page)) [
      | yes c ↦ e i a c
      | no c ↦ is_live-past page i (omega (arith, c))
    ]

    elsewhere :
        IsDead page (slot_count page / 2) (slot_count page)
        → IsDead page 0 (0 + slot_count page / 2)
        → ⊥
    elsewhere e x = elim (dec_lt j (slot_count page / 2)) [
      | yes c ↦ ground (arith, x j (omega arith) (omega (arith, c)))
      | no c ↦ ground (arith, e j (omega (arith, c)) h)
    ]
