-- ===== src/Index/Search.antt =====
-- The binary searches of index/b_plus_tree.cpp and index/b_plus_tree.h, on what a slot's test says.
-- A loop has fuel, and waits for ever without it; its bounds are 16-bit slot numbers.
pub mod Internal
pub mod Dead
pub mod Leaf
pub mod After
use database_internals.Prelude.{
  ℕ, zero, suc, ◌+◌, ◌-◌, ◌/◌, ◌%◌, ◌^◌, Bool, true, false, not, ◌&&◌, if◌then◌else◌, ltb, leb,
  Outcome, ok, waits, ◌>>=◌,
}

-- `lo + (hi - lo) / 2`.
abbrev pub mid_slot : ℕ → ℕ → ℕ
mid_slot lo hi = (lo + (hi - lo) / 2) % 2 ^ 16

abbrev pub next_slot : ℕ → ℕ
next_slot i = (i + 1) % 2 ^ 16

-- The search among the keys of an internal page: `right i` tells to go on behind key `i`.
unfoldable pub search_keys : (right : ℕ → Outcome Bool) → (fuel lo hi : ℕ) → Outcome ℕ
search_keys right zero lo hi = waits
search_keys right (suc fuel) lo hi = elim (ltb lo hi) [
  | false ↦ ok lo
  | true ↦ right (mid_slot lo hi) >>= λ r. elim r [
    | true ↦ search_keys right fuel (next_slot (mid_slot lo hi)) hi
    | false ↦ search_keys right fuel lo (mid_slot lo hi)
  ]
]

-- `while (rec.second == 0 && probe < hi)`: the first live slot from `probe` on, `hi` if there is
-- none.
unfoldable pub skip_dead : (live : ℕ → Bool) → (fuel probe hi : ℕ) → Outcome ℕ
skip_dead live zero probe hi = waits
skip_dead live (suc fuel) probe hi = elim (not (live probe) && ltb probe hi) [
  | true ↦ skip_dead live fuel (next_slot probe) hi
  | false ↦ ok probe
]

-- The search among the records of a leaf, some of which are dead: `below i` tells that the key at a
-- live slot is smaller than the target.
unfoldable pub search_leaf :
    (live : ℕ → Bool) → (below : ℕ → Outcome Bool) → (fuel n lo hi best : ℕ) → Outcome ℕ
unfolding skip_dead
search_leaf live below zero n lo hi best = waits
search_leaf live below (suc fuel) n lo hi best = elim (ltb lo hi) [
  | false ↦ ok (if ltb best n then best else lo)
  | true ↦ skip_dead live (suc hi) (mid_slot lo hi) hi >>= λ probe. elim (live probe) [
    | false ↦ search_leaf live below fuel n lo (mid_slot lo hi) best
    | true ↦ below probe >>= λ b. elim b [
      | true ↦ search_leaf live below fuel n (next_slot probe) hi best
      | false ↦ search_leaf live below fuel n lo (mid_slot lo hi) probe
    ]
  ]
]

-- `seekFirstAfter`: `reached i` tells that the key at a live slot is at most the given one.
unfoldable pub search_after :
    (live : ℕ → Bool) → (reached : ℕ → Outcome Bool) → (fuel lo hi : ℕ) → Outcome ℕ
unfolding skip_dead
search_after live reached zero lo hi = waits
search_after live reached (suc fuel) lo hi = elim (ltb lo hi) [
  | false ↦ ok lo
  | true ↦ skip_dead live (suc hi) (mid_slot lo hi) hi >>= λ probe. elim (leb hi probe) [
    | true ↦ search_after live reached fuel lo (mid_slot lo hi)
    | false ↦ reached probe >>= λ r. elim r [
      | true ↦ search_after live reached fuel (next_slot probe) hi
      | false ↦ search_after live reached fuel lo probe
    ]
  ]
]
