-- ===== src/Index/Tree/Children.antt =====
-- Which child `findRecord` descends to.
use database_internals.Prelude.{
  ℕ, suc, ◌+◌, ◌-◌, ◌*◌, ◌/◌, ◌%◌, ◌^◌, ◌<◌, ◌≤◌, ◌≡◌, refl, ap, ◌>>=◌, true, false, not, ok, arith,
}
use database_internals.Memory.{Memory}
use database_internals.Storage.SlottedPage.{slot_count}
use database_internals.Types.Value.{Sign}
use database_internals.Index.Key.{Key, KeyFormat, compare_keys}
use database_internals.Index.Search.{search_keys}
use database_internals.Index.Search.Internal.{search_keys-IsBoundary}
use database_internals.Index.Tree.{is_greater, at_most, slot_key, child_slot_of}

module _ (kf : KeyFormat) where
  child_slot_of-search :
      (page : Memory) (target : Key) (r : ℕ)
      → search_keys (at_most kf target page) (suc (slot_count page / 2)) 0 (slot_count page / 2)
        ≡ ok r
      → child_slot_of kf target page ≡ ok (((r - 1) * 2 + 1) % 2 ^ 16)
  unfolding child_slot_of
  child_slot_of-search page target r e = rw (child_slot_of, e) refl

  -- The child to descend to from an internal page of fewer than 2^16 slots whose keys can be
  -- compared with the target and stand in order: the one behind the last key that is at most the
  -- target, or the first one if there is none.
  pub child_slot_of-floor :
      (page : Memory) (target : Key) (s : ℕ → Sign)
      → slot_count page < 2 ^ 16
      → ((i : ℕ)
          → i < slot_count page / 2
          → compare_keys kf (slot_key kf page (i * 2 % 2 ^ 16)) target ≡ ok (s i))
      → ((i j : ℕ)
          → i ≤ j
          → j < slot_count page / 2
          → is_greater (s j) ≡ false
          → is_greater (s i) ≡ false)
      → (r : ℕ) × (r ≤ slot_count page / 2)
        × (child_slot_of kf target page ≡ ok (((r - 1) * 2 + 1) % 2 ^ 16))
        × ((i : ℕ) → i < r → is_greater (s i) ≡ false)
        × ((i : ℕ) → r ≤ i → i < slot_count page / 2 → is_greater (s i) ≡ true)
  unfolding at_most
  child_slot_of-floor page target s small read sorted =
      let n = slot_count page / 2 in
      let (r, e, b) =
        search_keys-IsBoundary (at_most kf target page) (λ i. not (is_greater (s i))) (suc n) 0 n
          (λ i a. ap (λ o. o >>= λ x. ok (not (is_greater x))) (read i a))
          (λ i j a c h. ground (arith, sorted i j a c)) (omega arith) (omega arith) (omega arith) in
      (
        r,
        b.upper,
        child_slot_of-search page target r e,
        λ i a. ground (arith, b.before i (omega arith) a),
        λ i a c. ground (arith, b.behind i a c),
      )
