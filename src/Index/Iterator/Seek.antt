-- ===== src/Index/Iterator/Seek.antt =====
-- `seekFirstAfter` of the iterator, in a leaf whose live keys stand in order.
use database_internals.Prelude.{ℕ, ◌^◌, ◌≤◌, ◌<◌, ◌≡◌, ap, ◌>>=◌, true, false, not, ok, arith}
use database_internals.Memory.{Memory}
use database_internals.Storage.SlottedPage.{slot_count}
use database_internals.Types.Value.{Sign}
use database_internals.Index.Key.{Key, KeyFormat, compare_keys}
use database_internals.Index.Search.After.{search_after-Divides}
use database_internals.Index.Tree.{is_greater, is_live, slot_key}
use database_internals.Index.Tree.Lookup.{is_live-inside}
use database_internals.Index.Iterator.{reached, seek_first_after}

-- In a leaf of fewer than 2^16 slots whose live keys can be compared with a key and stand in order,
-- `seekFirstAfter` returns a slot before which every live key is at most the given one, and from
-- which on every live key is greater.
pub seek_first_after-Divides :
    (kf : KeyFormat) (page : Memory) (key : Key) (s : ℕ → Sign)
    → slot_count page < 2 ^ 16
    → ((i : ℕ) → is_live page i ≡ true → compare_keys kf (slot_key kf page i) key ≡ ok (s i))
    → ((i j : ℕ)
        → i ≤ j
        → is_live page i ≡ true
        → is_live page j ≡ true
        → is_greater (s j) ≡ false
        → is_greater (s i) ≡ false)
    → (r : ℕ) × (seek_first_after kf page key ≡ ok r)
      × (r ≤ slot_count page)
      × ((i : ℕ) → i < r → is_live page i ≡ true → is_greater (s i) ≡ false)
      × ((i : ℕ) → r ≤ i → is_live page i ≡ true → is_greater (s i) ≡ true)
unfolding seek_first_after reached
seek_first_after-Divides kf page key s small read sorted =
    let (r, e, d) =
      search_after-Divides (is_live page) (λ i. not (is_greater (s i))) (reached kf key page)
        (slot_count page) small (λ i l. ap (λ o. o >>= λ x. ok (not (is_greater x))) (read i l))
        (λ i j a l m h. ground (arith, sorted i j a l m)) in
    (
      r,
      e,
      d.upper,
      λ i a l. ground (arith, d.before i a l),
      λ i a l. ground (arith, d.behind i a (is_live-inside kf page i l) l),
    )
