-- ===== src/Buffer/Arc/Ghosts.antt =====
-- What `RecordAccess` does to the lists of `ArcReplacer`, and the entries that `pop_back` leaves
-- behind in `ghost_map_`.
use database_internals.Prelude.{
  ℕ, ◌+◌, ◌≡◌, ◌≢◌, refl, ◌⊎◌, ◌++◌, false, Option, none, some, List, [], ◌∷◌, contains, ok, arith,
  is_ok,
}
use database_internals.Buffer.Arc.{
  ArcStatus, mru, mfu, FrameStatus, ArcReplacer, hit_alive, hit_ghost, miss, pop_back,
  record_access,
}
use database_internals.Buffer.Arc.Invariant.{IsConsistent, IsGhost}

-- The front of a list and the frame's status there.
abbrev pub IsFront : List ℕ → ℕ → ArcStatus → Option FrameStatus → Type 0
IsFront [] f st entry = ⊥
IsFront (x ∷ xs) f st none = ⊥
IsFront (x ∷ xs) f st (some fs) = (x ≡ f) × (fs.arc_status ≡ st)

-- Where `RecordAccess` on a consistent replacer returns, a frame that is alive, or a new frame
-- whose page is a ghost, stands at the front of `mfu_`; a new frame whose page is not a ghost
-- stands at the front of `mru_`, before the frames that were there, not evictable and under its
-- page.
pub record_access-IsFront :
    (r r' : ArcReplacer) (f p : ℕ)
    → IsConsistent r
    → record_access r f p ≡ ok r'
    → ((r.alive_map f ≡ none)
        × (r.ghost_map p ≡ none)
        × (r'.mru_list ≡ f ∷ r.mru_list)
        × (r'.alive_map f
            ≡ some (record { page_id = p; frame_id = f; evictable = false; arc_status = mru })))
      ⊎ (((r.alive_map f ≢ none) ⊎ ((r.alive_map f ≡ none) × (r.ghost_map p ≢ none)))
          × IsFront r'.mfu_list f mfu (r'.alive_map f))
unfolding record_access hit_alive hit_ghost miss
record_access-IsFront r r' f p v h = ground (arith, v.alive f, v.ghost p)

pop_back-append : (xs : List ℕ) (q : ℕ) → pop_back (xs ++ q ∷ []) ≡ ok xs
unfolding pop_back
pop_back-append [] q = refl
pop_back-append (x ∷ []) q = refl
pop_back-append (x ∷ (y ∷ ys)) q = ground (arith, pop_back-append (y ∷ ys) q)

-- A page whose entry is in no ghost list makes the next access from a fresh frame fail.
stale-fails :
    (r : ArcReplacer) (f q : ℕ) (fs : FrameStatus)
    → r.alive_map f ≡ none
    → r.ghost_map q ≡ some fs
    → IsGhost (some fs)
    → contains q r.mru_ghost_list ≡ false
    → contains q r.mfu_ghost_list ≡ false
    → is_ok (record_access r f q) ≡ false
unfolding record_access hit_ghost
stale-fails r f q fs ea eg g m n = ground arith

-- When a new page drops the oldest page `q` of `mru_ghost_`, the entry of `q` stays in
-- `ghost_map_`: from then on a fresh frame for `q` ends the process or is undefined.
pub record_access-drops_ghost :
    (r r' : ArcReplacer) (f p g q : ℕ) (xs : List ℕ) (fs : FrameStatus)
    → IsConsistent r
    → r.alive_map f ≡ none
    → r.ghost_map p ≡ none
    → r.mru_size + r.mru_ghost_size ≡ r.replacer_size
    → r.mru_ghost_list ≡ xs ++ q ∷ []
    → contains q xs ≡ false
    → contains q r.mfu_ghost_list ≡ false
    → r.ghost_map q ≡ some fs
    → record_access r f p ≡ ok r'
    → r'.alive_map g ≡ none
    → is_ok (record_access r' g q) ≡ false
unfolding record_access miss
record_access-drops_ghost r r' f p g q xs fs v ea ep full el nx nm eq h eg =
    ground (arith, pop_back-append xs q, stale-fails r' g q fs, v.ghost q)
