-- ===== src/Index/Search/Dead.antt =====
-- The walk over dead records in the searches of a leaf stops at the next live one.
use database_internals.Prelude.{
  ℕ, zero, suc, ◌+◌, ◌^◌, ◌<◌, ◌≤◌, ◌≡◌, refl, ◌∙◌, ◌⊎◌, inl, inr, Bool, true, false, not, ◌&&◌, ok,
  arith, ltb, leb, Bool-cases,
}
use database_internals.Index.Search.{skip_dead, mid_slot, next_slot}

pub mid_slot-within :
    (lo hi : ℕ) → ltb lo hi ≡ true → hi < 2 ^ 16 → (lo ≤ mid_slot lo hi) × (mid_slot lo hi < hi)
mid_slot-within lo hi h small = (ground arith, ground arith)

-- What `skip_dead` stops at.
pub record IsNextLive (live : ℕ → Bool) (probe hi q : ℕ) : Type 0 where
  pub lower : probe ≤ q
  pub upper : q ≤ hi
  pub dead : (i : ℕ) → probe ≤ i → i < q → live i ≡ false
  pub stop : (live q ≡ true) ⊎ (q ≡ hi)

skip_dead-on :
    (live : ℕ → Bool) (fuel probe hi : ℕ)
    → live probe ≡ false
    → ltb probe hi ≡ true
    → skip_dead live (suc fuel) probe hi ≡ skip_dead live fuel (next_slot probe) hi
unfolding skip_dead
skip_dead-on live fuel probe hi d w = rw (skip_dead, d, w) refl

skip_dead-stop :
    (live : ℕ → Bool) (fuel probe hi : ℕ)
    → (not (live probe) && ltb probe hi) ≡ false
    → skip_dead live (suc fuel) probe hi ≡ ok probe
unfolding skip_dead
skip_dead-stop live fuel probe hi e = rw (skip_dead, e) refl

pub skip_dead-IsNextLive :
    (live : ℕ → Bool) (fuel probe hi : ℕ)
    → probe ≤ hi
    → hi < 2 ^ 16
    → hi < probe + fuel
    → (q : ℕ) × (skip_dead live fuel probe hi ≡ ok q) × IsNextLive live probe hi q
skip_dead-IsNextLive live zero probe hi k small enough = absurd (omega arith)
skip_dead-IsNextLive live (suc fuel) probe hi k small enough = elim (Bool-cases (live probe)) [
  | inl y ↦ (
    probe,
    skip_dead-stop live fuel probe hi (ground (arith, y)),
    record { lower = omega arith; upper = k; dead = λ i a b. absurd (omega arith); stop = inl y },
  )
  | inr d ↦ elim (Bool-cases (ltb probe hi)) [
    | inr w ↦ (
      probe,
      skip_dead-stop live fuel probe hi (ground (arith, w)),
      record {
        lower = omega arith;
        upper = k;
        dead = λ i a b. absurd (omega arith);
        stop = inr (ground arith);
      },
    )
    | inl w ↦
        let step : next_slot probe ≡ probe + 1 = ground arith in
        let (q, e, s) =
          skip_dead-IsNextLive live fuel (next_slot probe) hi (ground (arith, step)) small
            (omega (arith, step)) in
        (
          q,
          skip_dead-on live fuel probe hi d w ∙ e,
          record {
            lower = omega (arith, step, s.lower);
            upper = s.upper;
            dead = λ i a b. elim (Bool-cases (leb (probe + 1) i)) [
              | inl l ↦ s.dead i (ground (arith, l, step)) b
              | inr g ↦ let here : i ≡ probe = ground arith in rw here d
            ];
            stop = s.stop;
          },
        )
  ]
]
