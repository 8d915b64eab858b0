-- ===== src/Index/Search/After.antt =====
-- `seekFirstAfter`'s search finds the place behind a key.
use database_internals.Prelude.{
  ℕ, zero, suc, ◌+◌, ◌^◌, ◌<◌, ◌≤◌, ◌≡◌, refl, ap, ◌∙◌, inl, inr, Bool, true, false, Outcome, ok,
  arith, ltb, leb, Bool-cases,
}
use database_internals.Index.Search.{skip_dead, search_after, mid_slot, next_slot}
use database_internals.Index.Search.Dead.{mid_slot-within, skip_dead-IsNextLive}

-- One round, its ways.
module _ (live : ℕ → Bool) (reached : ℕ → Outcome Bool) (fuel lo hi : ℕ) where
  search_after-end : ltb lo hi ≡ false → search_after live reached (suc fuel) lo hi ≡ ok lo
  unfolding search_after
  search_after-end w = rw (search_after, w) refl

  module _ (w : ltb lo hi ≡ true) (q : ℕ)
      (e : skip_dead live (suc hi) (mid_slot lo hi) hi ≡ ok q) where
    search_after-dead :
        leb hi q ≡ true
        → search_after live reached (suc fuel) lo hi
          ≡ search_after live reached fuel lo (mid_slot lo hi)
    unfolding search_after
    search_after-dead d = rw (search_after, w, e) (ground (arith, d))

    search_after-right :
        leb hi q ≡ false
        → reached q ≡ ok true
        → search_after live reached (suc fuel) lo hi
          ≡ search_after live reached fuel (next_slot q) hi
    unfolding search_after
    search_after-right d b = rw (search_after, w, e) (ground (arith, d, b))

    search_after-left :
        leb hi q ≡ false
        → reached q ≡ ok false
        → search_after live reached (suc fuel) lo hi ≡ search_after live reached fuel lo q
    unfolding search_after
    search_after-left d b = rw (search_after, w, e) (ground (arith, d, b))

-- Live slots before `r` pass the test, live slots from `r` on fail it.
pub record Divides (live t : ℕ → Bool) (n r : ℕ) : Type 0 where
  pub upper : r ≤ n
  pub before : (i : ℕ) → i < r → live i ≡ true → t i ≡ true
  pub behind : (i : ℕ) → r ≤ i → i < n → live i ≡ true → t i ≡ false

module _ (live t : ℕ → Bool) (reached : ℕ → Outcome Bool) (n : ℕ) (small : n < 2 ^ 16)
    (read : (i : ℕ) → live i ≡ true → reached i ≡ ok (t i))
    (sorted : (i j : ℕ) → i ≤ j → live i ≡ true → live j ≡ true → t j ≡ true → t i ≡ true) where
  -- The loop from any state it can be in.
  search_after-from :
      (fuel lo hi : ℕ)
      → lo ≤ hi
      → hi ≤ n
      → hi < lo + fuel
      → ((i : ℕ) → i < lo → live i ≡ true → t i ≡ true)
      → ((i : ℕ) → hi ≤ i → i < n → live i ≡ true → t i ≡ false)
      → (r : ℕ) × (search_after live reached fuel lo hi ≡ ok r) × Divides live t n r
  search_after-from zero lo hi k k2 enough done rest = absurd (omega arith)
  search_after-from (suc fuel) lo hi k k2 enough done rest = elim (Bool-cases (ltb lo hi)) [
    | inr out ↦ (
      lo,
      search_after-end live reached fuel lo hi out,
      record {
        upper = omega arith;
        before = done;
        behind = λ i a b l. rest i (ground (arith, out)) b l;
      },
    )
    | inl w ↦
        let mid = mid_slot lo hi in
        let near = mid_slot-within lo hi w (omega arith) in
        let (q, eq, s) =
          skip_dead-IsNextLive live (suc hi) mid hi (omega (arith, near)) (omega arith)
            (omega (arith, near)) in
        elim (Bool-cases (leb hi q)) [
          | inl d ↦
              let (r, e, v) =
                search_after-from fuel lo mid near.0 (omega (arith, near)) (omega (arith, near))
                  done
                  (λ i a b l. elim (Bool-cases (ltb i hi)) [
                    | inl y ↦ absurd (ground (arith, s.dead i a (ground (arith, d, y)), l))
                    | inr x ↦ rest i (ground arith) b l
                  ]) in
              (r, search_after-dead live reached fuel lo hi w q eq d ∙ e, v)
          | inr d ↦
              let l : live q ≡ true = elim s.stop [
                | inl l ↦ l
                | inr at_end ↦ absurd (ground (arith, d))
              ] in
              let before_hi : q < hi = ground (arith, d) in
              elim (Bool-cases (t q)) [
                | inl y ↦
                    let step : next_slot q ≡ q + 1 = ground (arith, before_hi) in
                    let (r, e, v) =
                      search_after-from fuel (next_slot q) hi (omega (arith, before_hi, step)) k2
                        (omega (arith, step, near, s.lower))
                        (λ i a m. sorted i q (omega (arith, step)) m l y) rest in
                    (
                      r,
                      search_after-right live reached fuel lo hi w q eq d (read q l ∙ ap ok y) ∙ e,
                      v,
                    )
                | inr f ↦
                    let (r, e, v) =
                      search_after-from fuel lo q (omega (arith, near, s.lower))
                        (omega (arith, before_hi)) (omega (arith, before_hi)) done
                        (λ i a b m. elim (Bool-cases (t i)) [
                          | inl y ↦ absurd (ground (arith, sorted q i a l m y, f))
                          | inr x ↦ x
                        ]) in
                    (
                      r,
                      search_after-left live reached fuel lo hi w q eq d (read q l ∙ ap ok f) ∙ e,
                      v,
                    )
              ]
        ]
  ]

  -- A leaf whose live keys stand in order: with fuel for one round more than the leaf has slots,
  -- the search returns a place before which every live key is at most the given one, and from which
  -- on every live key is greater.
  pub search_after-Divides :
      (r : ℕ) × (search_after live reached (suc n) 0 n ≡ ok r) × Divides live t n r
  search_after-Divides =
      search_after-from (suc n) 0 n (omega arith) (omega arith) (omega arith)
        (λ i a. absurd (omega arith)) (λ i a b. absurd (omega arith))
