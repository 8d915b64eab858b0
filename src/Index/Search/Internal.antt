-- ===== src/Index/Search/Internal.antt =====
-- The search among the keys of an internal page finds the boundary.
use database_internals.Prelude.{
  ℕ, zero, suc, ◌+◌, ◌^◌, ◌<◌, ◌≤◌, ◌≡◌, refl, ap, ◌∙◌, inl, inr, Bool, true, false, Outcome, ok,
  arith, ltb, Bool-cases,
}
use database_internals.Index.Search.{search_keys, mid_slot, next_slot}

-- The first `r` of the slots from `lo` to `hi` tell to go on, and the others not to.
pub record IsBoundary (t : ℕ → Bool) (lo hi r : ℕ) : Type 0 where
  pub lower : lo ≤ r
  pub upper : r ≤ hi
  pub before : (i : ℕ) → lo ≤ i → i < r → t i ≡ true
  pub behind : (i : ℕ) → r ≤ i → i < hi → t i ≡ false

-- One round.
search_keys-right :
    (right : ℕ → Outcome Bool) (fuel lo hi : ℕ)
    → ltb lo hi ≡ true
    → right (mid_slot lo hi) ≡ ok true
    → search_keys right (suc fuel) lo hi ≡ search_keys right fuel (next_slot (mid_slot lo hi)) hi
unfolding search_keys
search_keys-right right fuel lo hi within e = rw (search_keys, within, e) refl

search_keys-left :
    (right : ℕ → Outcome Bool) (fuel lo hi : ℕ)
    → ltb lo hi ≡ true
    → right (mid_slot lo hi) ≡ ok false
    → search_keys right (suc fuel) lo hi ≡ search_keys right fuel lo (mid_slot lo hi)
unfolding search_keys
search_keys-left right fuel lo hi within e = rw (search_keys, within, e) refl

-- Where the keys are read and stand in order, so that the test holds up to some key and fails from
-- there on, the search returns with fuel for one round more than there are keys, and its result
-- is that place: every key before it says to go on, and none behind it does.
pub search_keys-IsBoundary :
    (right : ℕ → Outcome Bool) (t : ℕ → Bool) (fuel lo hi : ℕ)
    → ((i : ℕ) → i < hi → right i ≡ ok (t i))
    → ((i j : ℕ) → i ≤ j → j < hi → t j ≡ true → t i ≡ true)
    → lo ≤ hi
    → hi < 2 ^ 16
    → hi < lo + fuel
    → (r : ℕ) × (search_keys right fuel lo hi ≡ ok r) × IsBoundary t lo hi r
unfolding search_keys
search_keys-IsBoundary right t zero lo hi read sorted k small enough = absurd (omega arith)
search_keys-IsBoundary right t (suc fuel) lo hi read sorted k small enough =
    elim (Bool-cases (ltb lo hi)) [
      | inr out ↦ (
        lo,
        ground arith,
        record {
          lower = omega arith;
          upper = k;
          before = λ i a b. absurd (omega arith);
          behind = λ i a b. absurd (ground arith);
        },
      )
      | inl within ↦
          let mid = mid_slot lo hi in
          let near : (lo ≤ mid) × (mid < hi) = (ground arith, ground arith) in
          elim (Bool-cases (t mid)) [
            | inl y ↦
                let step : next_slot mid ≡ mid + 1 = ground (arith, near) in
                let (r, e, b) =
                  search_keys-IsBoundary right t fuel (next_slot mid) hi read sorted
                    (omega (arith, near, step)) small (omega (arith, near, step)) in
                (
                  r,
                  search_keys-right right fuel lo hi within (read mid near.1 ∙ ap ok y) ∙ e,
                  record {
                    lower = omega (arith, near, step, b.lower);
                    upper = b.upper;
                    before = λ i a c. elim (Bool-cases (ltb i (mid + 1))) [
                      | inl l ↦ sorted i mid (ground (arith, l)) near.1 y
                      | inr g ↦ b.before i (ground (arith, g, step)) c
                    ];
                    behind = b.behind;
                  },
                )
            | inr n ↦
                let (r, e, b) =
                  search_keys-IsBoundary right t fuel lo mid (λ i a. read i (omega (arith, near)))
                    (λ i j a c. sorted i j a (omega (arith, near))) near.0 (omega (arith, near))
                    (omega (arith, near)) in
                (
                  r,
                  search_keys-left right fuel lo hi within (read mid near.1 ∙ ap ok n) ∙ e,
                  record {
                    lower = b.lower;
                    upper = omega (arith, near, b.upper);
                    before = b.before;
                    behind = λ i a c. elim (Bool-cases (ltb i mid)) [
                      | inl l ↦ b.behind i a (ground (arith, l))
                      | inr g ↦ elim (Bool-cases (t i)) [
                        | inl w ↦ absurd (ground (arith, sorted mid i (ground (arith, g)) c w))
                        | inr w ↦ w
                      ]
                    ];
                  },
                )
          ]
    ]
