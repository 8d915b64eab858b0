-- ===== src/Buffer/Arc/Evict.antt =====
-- `Evict` of `ArcReplacer`: which frame it takes, and that it keeps the invariant.
use database_internals.Prelude.{
  ℕ, ◌+◌, ◌^◌, ◌≤◌, ◌<◌, ◌≡◌, refl, ◌⊎◌, inl, inr, true, false, Option, none, some, List, ◌∷◌,
  count, ok, arith, leb, ◌≢◌, ok_value, Bool-cases,
}
use database_internals.Buffer.Arc.{
  FrameStatus, ArcStatus, mru_ghost, mfu_ghost, invalid_frame_id, ArcReplacer, evict_from, evict,
  size, to_ghost,
}
use database_internals.Buffer.Arc.Invariant.{
  IsConsistent, evictables, evictables-update, evictables-le,
}
use database_internals.Buffer.Arc.Scan.{
  IsCut, evict_from-none, evict_from-IsCut, evict_from-returns, length-cut, count-cut,
  evictables-cut,
}

module _ (r : ArcReplacer) (v : IsConsistent r) (f : ℕ) (fs : FrameStatus)
    (e : r.alive_map f ≡ some fs) (rest : List ℕ) where
  -- The state that `Evict` leaves when the victim stood in `mru_`.
  to_ghost-mru :
      IsCut r.alive_map r.mru_list f rest
      → IsConsistent (to_ghost (record r { mru_list = rest }) f fs true)
  unfolding to_ghost
  to_ghost-mru c = record {
    mru_sized = ground (arith, length-cut c);
    mfu_sized = v.mfu_sized;
    mru_ghost_sized = ground arith;
    mfu_ghost_sized = v.mfu_ghost_sized;
    mru_tracked = λ g.
        ground (arith, count-cut c g, v.mru_tracked g, v.mru_tracked f, count-cut c f, v.alive f);
    mfu_tracked = λ g. ground (arith, v.mfu_tracked g, v.mru_tracked f, count-cut c f, v.alive f);
    alive = λ g. ground (arith, v.alive g);
    ghost = λ q. ground (arith, v.ghost q);
    counted = ground (
      arith,
      v.mru_tracked f,
      v.mfu_tracked f,
      v.alive f,
      count-cut c f,
      evictables-cut c,
      c.flagged,
      evictables-le r.alive_map r.mru_list,
      evictables-le r.alive_map r.mfu_list,
      evictables-update r.alive_map f none rest,
      evictables-update r.alive_map f none r.mfu_list,
    );
    recent_fits = ground (arith, length-cut c);
    live_fits = ground (arith, length-cut c);
    all_fits = ground (arith, length-cut c);
    small = v.small;
  }

  -- And when it stood in `mfu_`.
  to_ghost-mfu :
      IsCut r.alive_map r.mfu_list f rest
      → IsConsistent (to_ghost (record r { mfu_list = rest }) f fs false)
  unfolding to_ghost
  to_ghost-mfu c = record {
    mru_sized = v.mru_sized;
    mfu_sized = ground (arith, length-cut c);
    mru_ghost_sized = v.mru_ghost_sized;
    mfu_ghost_sized = ground arith;
    mru_tracked = λ g. ground (arith, v.mru_tracked g, v.mfu_tracked f, count-cut c f, v.alive f);
    mfu_tracked = λ g.
        ground (arith, count-cut c g, v.mfu_tracked g, v.mfu_tracked f, count-cut c f, v.alive f);
    alive = λ g. ground (arith, v.alive g);
    ghost = λ q. ground (arith, v.ghost q);
    counted = ground (
      arith,
      v.mru_tracked f,
      v.mfu_tracked f,
      v.alive f,
      count-cut c f,
      evictables-cut c,
      c.flagged,
      evictables-le r.alive_map r.mru_list,
      evictables-le r.alive_map r.mfu_list,
      evictables-update r.alive_map f none rest,
      evictables-update r.alive_map f none r.mru_list,
    );
    recent_fits = ground (arith, length-cut c);
    live_fits = ground (arith, length-cut c);
    all_fits = ground (arith, length-cut c);
    small = v.small;
  }

-- The frames of a consistent list have entries.
mru-listed :
    {r : ArcReplacer} → IsConsistent r → (f : ℕ) → 0 < count f r.mru_list → r.alive_map f ≢ none
mru-listed v f h e = ground (arith, v.mru_tracked f)

mfu-listed :
    {r : ArcReplacer} → IsConsistent r → (f : ℕ) → 0 < count f r.mfu_list → r.alive_map f ≢ none
mfu-listed v f h e = ground (arith, v.mfu_tracked f)

-- What a scan of a consistent list comes to: nothing evictable, or a cut at an evictable frame.
data Scanned (alive : ℕ → Option FrameStatus) (xs : List ℕ) : Type 0 where
  barren : evict_from alive xs ≡ ok none → evictables alive xs ≡ 0 → Scanned alive xs
  taken :
      (f : ℕ) (rest : List ℕ) (fs : FrameStatus)
      → evict_from alive xs ≡ ok (some (f, rest))
      → IsCut alive xs f rest
      → alive f ≡ some fs
      → fs.evictable ≡ true
      → Scanned alive xs

scanned :
    (alive : ℕ → Option FrameStatus) (xs : List ℕ)
    → ((f : ℕ) → 0 < count f xs → alive f ≢ none)
    → Scanned alive xs
scanned alive xs h = settle _ (ok_value (evict_from alive xs) (evict_from-returns alive xs h)).1
  where
    flagged :
        (f : ℕ) (rest : List ℕ) (o : Option FrameStatus)
        → alive f ≡ o
        → evict_from alive xs ≡ ok (some (f, rest))
        → IsCut alive xs f rest
        → Scanned alive xs
    flagged f rest none ef e c = absurd (ground (arith, c.flagged))
    flagged f rest (some fs) ef e c = taken f rest fs e c ef (ground (arith, c.flagged))

    settle : (o : Option (ℕ × List ℕ)) → evict_from alive xs ≡ ok o → Scanned alive xs
    settle none e = barren e (evict_from-none alive xs e)
    settle (some (f, rest)) e = flagged f rest _ refl e (evict_from-IsCut alive xs f rest e)

-- The outcome of `Evict`: nothing, if no frame is evictable; otherwise the last evictable frame of
-- the preferred list, which is `mru_` once that has reached the target, or of the other list where
-- the preferred one has none.
pub data Evicted (r : ArcReplacer) : Type 0 where
  nothing : evict r ≡ ok (none, r) → size r ≡ 0 → Evicted r
  from_mru :
      (f : ℕ) (rest : List ℕ) (fs : FrameStatus)
      → evict r ≡ ok (some (fs.page_id, f), to_ghost (record r { mru_list = rest }) f fs true)
      → IsCut r.alive_map r.mru_list f rest
      → r.alive_map f ≡ some fs
      → fs.evictable ≡ true
      → ((leb r.mru_target_size r.mru_size ≡ true) ⊎ (evictables r.alive_map r.mfu_list ≡ 0))
      → Evicted r
  from_mfu :
      (f : ℕ) (rest : List ℕ) (fs : FrameStatus)
      → evict r ≡ ok (some (fs.page_id, f), to_ghost (record r { mfu_list = rest }) f fs false)
      → IsCut r.alive_map r.mfu_list f rest
      → r.alive_map f ≡ some fs
      → fs.evictable ≡ true
      → ((leb r.mru_target_size r.mru_size ≡ false) ⊎ (evictables r.alive_map r.mru_list ≡ 0))
      → Evicted r

-- `Evict` returns, with such an outcome.
pub evict-Evicted : (r : ArcReplacer) → IsConsistent r → Evicted r
unfolding evict size
evict-Evicted r v =
    settle (scanned r.alive_map r.mru_list (mru-listed v))
      (scanned r.alive_map r.mfu_list (mfu-listed v))
      (Bool-cases (leb r.mru_target_size r.mru_size))
  where
    settle :
        Scanned r.alive_map r.mru_list
        → Scanned r.alive_map r.mfu_list
        → (leb r.mru_target_size r.mru_size ≡ true) ⊎ (leb r.mru_target_size r.mru_size ≡ false)
        → Evicted r
    settle (barren e n) (barren e' n') b = nothing (ground arith) (ground (arith, v.counted))
    settle (taken f rest fs e c ef fl) (barren e' n') b =
        from_mru f rest fs (ground arith) c ef fl (inr n')
    settle (barren e n) (taken f rest fs e' c ef fl) b =
        from_mfu f rest fs (ground arith) c ef fl (inr n)
    settle (taken f rest fs e c ef fl) (taken f' rest' fs' e' c' ef' fl') (inl b) =
        from_mru f rest fs (ground arith) c ef fl (inl b)
    settle (taken f rest fs e c ef fl) (taken f' rest' fs' e' c' ef' fl') (inr b) =
        from_mfu f' rest' fs' (ground arith) c' ef' fl' (inl b)

-- The ghost entry of a page that was in a frame with this status.
abbrev ghost_entry : FrameStatus → ArcStatus → FrameStatus
ghost_entry fs st = record fs { frame_id = invalid_frame_id; arc_status = st }

-- The frame leaves its list, and its page goes to the front of the ghost list of that list, with an
-- entry that says so; no other entry and neither of the other two lists changes.
abbrev Moves : ArcReplacer → ArcReplacer → ℕ → FrameStatus → Type 0
Moves r r' f fs =
    ((IsCut r.alive_map r.mru_list f r'.mru_list
        × (r'.mru_ghost_list ≡ fs.page_id ∷ r.mru_ghost_list)
        × (r'.mfu_list ≡ r.mfu_list)
        × (r'.mfu_ghost_list ≡ r.mfu_ghost_list)
        × (r'.ghost_map fs.page_id ≡ some (ghost_entry fs mru_ghost)))
      ⊎ (IsCut r.alive_map r.mfu_list f r'.mfu_list
          × (r'.mfu_ghost_list ≡ fs.page_id ∷ r.mfu_ghost_list)
          × (r'.mru_list ≡ r.mru_list)
          × (r'.mru_ghost_list ≡ r.mru_ghost_list)
          × (r'.ghost_map fs.page_id ≡ some (ghost_entry fs mfu_ghost))))
    × ((q : ℕ) → q ≢ fs.page_id → r'.ghost_map q ≡ r.ghost_map q)

-- What an eviction leaves.
pub record TakesVictim (r : ArcReplacer) : Type 0 where
  pub frame : ℕ
  pub status : FrameStatus
  pub after : ArcReplacer
  pub returned : evict r ≡ ok (some (status.page_id, frame), after)
  pub was_alive : r.alive_map frame ≡ some status
  pub was_evictable : status.evictable ≡ true
  pub consistent : IsConsistent after
  pub one_fewer : size after + 1 ≡ size r
  pub gone : after.alive_map frame ≡ none
  pub moves : Moves r after frame status

-- In a consistent replacer whose `Size()` is positive, `Evict` returns an evictable frame with its
-- page, forgets the frame, lowers `Size()` by one and keeps the invariant. The frame leaves its
-- list, and its page goes to the front of the ghost list of that list, with a ghost entry of that
-- status; the other lists and the ghost entries of other pages stay.
pub evict-TakesVictim : (r : ArcReplacer) → IsConsistent r → 0 < size r → TakesVictim r
unfolding size to_ghost
evict-TakesVictim r v h = settle (evict-Evicted r v)
  where
    small : r.curr_size ≤ 2 ^ 33
    small = omega (
      arith,
      v.counted,
      evictables-le r.alive_map r.mru_list,
      evictables-le r.alive_map r.mfu_list,
    )

    settle : Evicted r → TakesVictim r
    settle (nothing e n) = absurd (omega arith)
    settle (from_mru f rest fs e c ef fl p) = record {
      frame = f;
      status = fs;
      after = to_ghost (record r { mru_list = rest }) f fs true;
      returned = e;
      was_alive = ef;
      was_evictable = fl;
      consistent = to_ghost-mru r v f fs ef rest c;
      one_fewer = ground (arith, small);
      gone = ground arith;
      moves = (inl (c, refl, refl, refl, ground arith), λ q n. ground arith);
    }
    settle (from_mfu f rest fs e c ef fl p) = record {
      frame = f;
      status = fs;
      after = to_ghost (record r { mfu_list = rest }) f fs false;
      returned = e;
      was_alive = ef;
      was_evictable = fl;
      consistent = to_ghost-mfu r v f fs ef rest c;
      one_fewer = ground (arith, small);
      gone = ground arith;
      moves = (inr (c, refl, refl, refl, ground arith), λ q n. ground arith);
    }
