-- ===== src/Index/Search/Leaf.antt =====
-- The search among the records of a leaf, dead ones included, finds the lower bound.
use database_internals.Prelude.{
  ℕ, zero, suc, ◌+◌, ◌^◌, ◌<◌, ◌≤◌, ◌≡◌, refl, ap, ◌∙◌, subst, ◌⊎◌, inl, inr, Bool, true, false,
  Outcome, ok, arith, ltb, Bool-cases, if◌then◌else◌,
}
use database_internals.Index.Search.{skip_dead, search_leaf, mid_slot, next_slot}
use database_internals.Index.Search.Dead.{mid_slot-within, IsNextLive, skip_dead-IsNextLive}

-- The closest match behind `hi`, if there is one.
IsBest : (live t : ℕ → Bool) → (n hi best : ℕ) → Type 0
IsBest live t n hi best =
    ((best ≡ n) × ((i : ℕ) → hi ≤ i → i < n → live i ≡ false))
    ⊎ ((hi ≤ best)
        × (best < n)
        × (live best ≡ true)
        × (t best ≡ false)
        × ((i : ℕ) → hi ≤ i → i < best → live i ≡ false))

-- `r` is the first live slot whose test fails; or there is none, and no slot from `r` on is live.
pub record IsLowerBound (live t : ℕ → Bool) (n r : ℕ) : Type 0 where
  pub before : (i : ℕ) → i < r → live i ≡ true → t i ≡ true
  pub found :
      ((r < n) × (live r ≡ true) × (t r ≡ false))
      ⊎ ((r ≤ n) × (live r ≡ false) × ((i : ℕ) → r ≤ i → i < n → live i ≡ false))

-- One round, its four ways.
module _ (live : ℕ → Bool) (below : ℕ → Outcome Bool) (fuel n lo hi best : ℕ) where
  search_leaf-end :
      ltb lo hi ≡ false
      → search_leaf live below (suc fuel) n lo hi best ≡ ok (if ltb best n then best else lo)
  unfolding search_leaf
  search_leaf-end w = rw (search_leaf, w) refl

  module _ (w : ltb lo hi ≡ true) (q : ℕ)
      (e : skip_dead live (suc hi) (mid_slot lo hi) hi ≡ ok q) where
    search_leaf-dead :
        live q ≡ false
        → search_leaf live below (suc fuel) n lo hi best
          ≡ search_leaf live below fuel n lo (mid_slot lo hi) best
    unfolding search_leaf
    search_leaf-dead d = rw (search_leaf, w, e, d) refl

    search_leaf-below :
        live q ≡ true
        → below q ≡ ok true
        → search_leaf live below (suc fuel) n lo hi best
          ≡ search_leaf live below fuel n (next_slot q) hi best
    unfolding search_leaf
    search_leaf-below d b = rw (search_leaf, w, e, d, b) refl

    search_leaf-match :
        live q ≡ true
        → below q ≡ ok false
        → search_leaf live below (suc fuel) n lo hi best
          ≡ search_leaf live below fuel n lo (mid_slot lo hi) q
    unfolding search_leaf
    search_leaf-match d b = rw (search_leaf, w, e, d, b) refl

module _ (live t : ℕ → Bool) (below : ℕ → Outcome Bool) (n : ℕ) (small : n < 2 ^ 16)
    (inside : (i : ℕ) → live i ≡ true → i < n) (read : (i : ℕ) → live i ≡ true → below i ≡ ok (t i))
    (sorted : (i j : ℕ) → i ≤ j → live i ≡ true → live j ≡ true → t j ≡ true → t i ≡ true) where
  end-none :
      (lo hi best : ℕ)
      → lo ≡ hi
      → hi ≤ n
      → ((i : ℕ) → i < lo → live i ≡ true → t i ≡ true)
      → best ≡ n
      → ((i : ℕ) → hi ≤ i → i < n → live i ≡ false)
      → IsLowerBound live t n (if ltb best n then best else lo)
  end-none lo hi best meet k done e none =
      let here : lo ≡ (if ltb best n then best else lo) = ground (arith, e) in
      let vacant : live lo ≡ false = elim (Bool-cases (live lo)) [
        | inr d ↦ d
        | inl l ↦ absurd (ground (arith, none lo (ground (arith, meet)) (inside lo l), l))
      ] in
      subst (IsLowerBound live t n) here (record {
        before = done;
        found = inr (omega (arith, meet, k), vacant, λ i a c. none i (omega (arith, meet, a)) c);
      })

  end-best :
      (lo hi best : ℕ)
      → lo ≡ hi
      → ((i : ℕ) → i < lo → live i ≡ true → t i ≡ true)
      → best < n
      → live best ≡ true
      → t best ≡ false
      → ((i : ℕ) → hi ≤ i → i < best → live i ≡ false)
      → IsLowerBound live t n (if ltb best n then best else lo)
  end-best lo hi best meet done c l f d =
      let here : best ≡ (if ltb best n then best else lo) = ground (arith, c) in
      subst (IsLowerBound live t n) here (record {
        before = λ i a m. elim (Bool-cases (ltb i lo)) [
          | inl y ↦ done i (ground arith) m
          | inr x ↦ absurd (ground (arith, d i (ground (arith, meet, x)) a, m))
        ];
        found = inl (c, l, f);
      })

  -- No slot from `mid` to `hi` is live.
  dead-IsBest :
      (mid hi q best : ℕ)
      → mid ≤ hi
      → IsNextLive live mid hi q
      → live q ≡ false
      → IsBest live t n hi best
      → IsBest live t n mid best
  unfolding IsBest
  dead-IsBest mid hi q best k s dq b =
      let at_end : q ≡ hi = elim s.stop [ inl l ↦ absurd (ground arith) | inr e ↦ e ] in
      elim b [
        | inl (e, none) ↦ inl (
          e,
          λ i a c. elim (Bool-cases (ltb i hi)) [
            | inl y ↦ s.dead i a (ground (arith, at_end))
            | inr x ↦ none i (ground arith) c
          ],
        )
        | inr (a, c, l, f, d) ↦ inr (
          omega arith,
          c,
          l,
          f,
          λ i m j. elim (Bool-cases (ltb i hi)) [
            | inl y ↦ s.dead i m (ground (arith, at_end))
            | inr x ↦ d i (ground arith) j
          ],
        )
      ]

  below-within :
      (hi q best : ℕ) → q ≤ hi → live q ≡ true → t q ≡ true → IsBest live t n hi best → q < hi
  unfolding IsBest
  below-within hi q best k l y b = elim (Bool-cases (ltb q hi)) [
    | inl w ↦ ground arith
    | inr w ↦ elim b [
      | inl (e, none) ↦ absurd (ground (arith, none q (ground arith) (inside q l)))
      | inr (a, c, m, f, d) ↦ elim (Bool-cases (ltb q best)) [
        | inl x ↦ absurd (ground (arith, d q (ground arith) (ground arith)))
        | inr x ↦ let same : q ≡ best = ground arith in absurd (ground (arith, ap t same))
      ]
    ]
  ]

  -- The loop from any state it can be in.
  search_leaf-from :
      (fuel lo hi best : ℕ)
      → lo ≤ hi
      → hi ≤ n
      → hi < lo + fuel
      → ((i : ℕ) → i < lo → live i ≡ true → t i ≡ true)
      → IsBest live t n hi best
      → (r : ℕ) × (search_leaf live below fuel n lo hi best ≡ ok r) × IsLowerBound live t n r
  unfolding IsBest
  search_leaf-from zero lo hi best k k2 enough done b = absurd (omega arith)
  search_leaf-from (suc fuel) lo hi best k k2 enough done b = elim (Bool-cases (ltb lo hi)) [
    | inr out ↦
        let meet : lo ≡ hi = ground arith in
        (
          (if ltb best n then best else lo),
          search_leaf-end live below fuel n lo hi best out,
          elim b [
            | inl (e, none) ↦ end-none lo hi best meet k2 done e none
            | inr (a, c, l, f, d) ↦ end-best lo hi best meet done c l f d
          ],
        )
    | inl w ↦
        let mid = mid_slot lo hi in
        let near = mid_slot-within lo hi w (omega arith) in
        let (q, eq, s) =
          skip_dead-IsNextLive live (suc hi) mid hi (omega (arith, near)) (omega arith)
            (omega (arith, near)) in
        elim (Bool-cases (live q)) [
          | inr d ↦
              let (r, e, v) =
                search_leaf-from fuel lo mid best near.0 (omega (arith, near)) (omega (arith, near))
                  done (dead-IsBest mid hi q best (omega (arith, near)) s d b) in
              (r, search_leaf-dead live below fuel n lo hi best w q eq d ∙ e, v)
          | inl l ↦ elim (Bool-cases (t q)) [
            | inl y ↦
                let before_hi = below-within hi q best s.upper l y b in
                let step : next_slot q ≡ q + 1 = ground (arith, before_hi) in
                let (r, e, v) =
                  search_leaf-from fuel (next_slot q) hi best (omega (arith, before_hi, step)) k2
                    (omega (arith, step, near, s.lower))
                    (λ i a m. sorted i q (omega (arith, step)) m l y) b in
                (
                  r,
                  search_leaf-below live below fuel n lo hi best w q eq l (read q l ∙ ap ok y) ∙ e,
                  v,
                )
            | inr f ↦
                let (r, e, v) =
                  search_leaf-from fuel lo mid q near.0 (omega (arith, near)) (omega (arith, near))
                    done (inr (s.lower, inside q l, l, f, s.dead)) in
                (
                  r,
                  search_leaf-match live below fuel n lo hi best w q eq l (read q l ∙ ap ok f) ∙ e,
                  v,
                )
          ]
        ]
  ]

  -- A leaf whose live keys stand in order: the search returns, with fuel for one round more than
  -- the leaf has slots, and its result is the first live slot whose key is not smaller than the
  -- target, if there is one; the keys of all live slots before the result are smaller.
  pub search_leaf-IsLowerBound :
      (r : ℕ) × (search_leaf live below (suc n) n 0 n n ≡ ok r) × IsLowerBound live t n r
  unfolding IsBest
  search_leaf-IsLowerBound =
      search_leaf-from (suc n) 0 n n (omega arith) (omega arith) (omega arith)
        (λ i a. absurd (omega arith)) (inl (refl, λ i a b. absurd (omega arith)))
