-- ===== src/Buffer/Arc/Access.antt =====
-- `RecordAccess` keeps the invariant of `ArcReplacer`.
use database_internals.Prelude.{
  ℕ, ◌+◌, ◌<◌, ◌≡◌, refl, true, false, Option, none, some, List, [], ◌∷◌, length, contains, erase,
  ok, arith, contains-count, is_ok, ok_value, length-erase, count-erase,
}
use database_internals.Buffer.Arc.{
  mfu, mru_ghost, mfu_ghost, FrameStatus, ArcReplacer, unlink, hit_alive, hit_ghost, miss, pop_back,
  record_access, access,
}
use database_internals.Buffer.Arc.Invariant.{IsConsistent, evictables-update, evictables-erase}

-- A frame that is alive is found in its list.
pub unlink-returns :
    (r : ArcReplacer) (f : ℕ) (fs : FrameStatus)
    → IsConsistent r
    → r.alive_map f ≡ some fs
    → is_ok (unlink r f fs.arc_status) ≡ true
unfolding unlink
unlink-returns r f fs v e = ground (
  arith,
  v.mru_tracked f,
  v.mfu_tracked f,
  v.alive f,
  contains-count f r.mru_list,
  contains-count f r.mfu_list,
)

hit_alive-IsConsistent :
    (r r' : ArcReplacer) (f : ℕ) (fs : FrameStatus)
    → IsConsistent r
    → r.alive_map f ≡ some fs
    → hit_alive r f fs ≡ ok r'
    → IsConsistent r'
unfolding hit_alive
hit_alive-IsConsistent r r' f fs v e h = record {
  mru_sized = ground (arith, length-erase f r.mru_list, v.mru_sized);
  mfu_sized = ground (arith, length-erase f r.mfu_list);
  mru_ghost_sized = ground arith;
  mfu_ghost_sized = ground arith;
  mru_tracked = λ g. ground (
    arith,
    v.mru_tracked g,
    v.mru_tracked f,
    v.mfu_tracked f,
    count-erase f g r.mru_list,
    v.alive f,
  );
  mfu_tracked = λ g. ground (
    arith,
    v.mfu_tracked g,
    v.mru_tracked f,
    v.mfu_tracked f,
    count-erase f g r.mfu_list,
    v.alive f,
  );
  alive = λ g. ground (arith, v.alive g, v.alive f);
  ghost = λ g. ground (arith, v.ghost g);
  counted = ground (
    arith,
    v.mru_tracked f,
    v.mfu_tracked f,
    v.alive f,
    count-erase f f r.mru_list,
    count-erase f f r.mfu_list,
    evictables-erase r.alive_map f r.mru_list,
    evictables-erase r.alive_map f r.mfu_list,
    evictables-update r.alive_map f (some (record fs { arc_status = mfu })) r.mru_list,
    evictables-update r.alive_map f (some (record fs { arc_status = mfu })) r.mfu_list,
    evictables-update r.alive_map f (some (record fs { arc_status = mfu })) (erase f r.mru_list),
    evictables-update r.alive_map f (some (record fs { arc_status = mfu })) (erase f r.mfu_list),
  );
  recent_fits = ground (arith, length-erase f r.mru_list, length-erase f r.mfu_list);
  live_fits = ground (arith, length-erase f r.mru_list, length-erase f r.mfu_list);
  all_fits = ground (arith, length-erase f r.mru_list, length-erase f r.mfu_list);
  small = ground arith;
}

hit_ghost-IsConsistent :
    (r r' : ArcReplacer) (f p : ℕ) (fs : FrameStatus)
    → IsConsistent r
    → r.alive_map f ≡ none
    → r.ghost_map p ≡ some fs
    → length r.mru_list + length r.mfu_list < r.replacer_size
    → hit_ghost r f p fs ≡ ok r'
    → IsConsistent r'
unfolding hit_ghost
hit_ghost-IsConsistent r r' f p fs v e g room h = record {
  mru_sized = ground (arith, v.ghost p);
  mfu_sized = ground (arith, v.ghost p);
  mru_ghost_sized = ground (arith, length-erase p r.mru_ghost_list, v.ghost p);
  mfu_ghost_sized = ground (arith, length-erase p r.mfu_ghost_list, v.ghost p);
  mru_tracked = λ g. ground (arith, v.mru_tracked g, v.mru_tracked f, v.ghost p);
  mfu_tracked = λ g. ground (arith, v.mfu_tracked g, v.mfu_tracked f, v.ghost p);
  alive = λ g. ground (arith, v.alive g);
  ghost = λ g. ground (arith, v.ghost g);
  counted = ground (
    arith,
    v.ghost p,
    v.mru_tracked f,
    v.mfu_tracked f,
    evictables-update r.alive_map f
        (some (record fs { frame_id = f; arc_status = mfu; evictable = false })) r.mru_list,
    evictables-update r.alive_map f
        (some (record fs { frame_id = f; arc_status = mfu; evictable = false })) r.mfu_list,
  );
  recent_fits = ground (arith, length-erase p r.mru_ghost_list, v.ghost p);
  live_fits = ground (arith, v.ghost p);
  all_fits =
      ground (arith, length-erase p r.mru_ghost_list, length-erase p r.mfu_ghost_list, v.ghost p);
  small = ground (arith, v.ghost p);
}

length-pop_back : (xs ys : List ℕ) → pop_back xs ≡ ok ys → length ys + 1 ≡ length xs
unfolding pop_back
length-pop_back [] ys h = cc
length-pop_back (x ∷ []) ys h = ground arith
length-pop_back (x ∷ (y ∷ zs)) [] h = ground arith
length-pop_back (x ∷ (y ∷ zs)) (w ∷ ws) h = ground (arith, length-pop_back (y ∷ zs) ws)

pop_back-returns : (xs : List ℕ) → 0 < length xs → is_ok (pop_back xs) ≡ true
unfolding pop_back
pop_back-returns [] h = absurd (omega arith)
pop_back-returns (x ∷ []) h = refl
pop_back-returns (x ∷ (y ∷ ys)) h = ground (arith, pop_back-returns (y ∷ ys))

miss-IsConsistent :
    (r r' : ArcReplacer) (f p : ℕ)
    → IsConsistent r
    → r.alive_map f ≡ none
    → length r.mru_list + length r.mfu_list < r.replacer_size
    → miss r f p ≡ ok r'
    → IsConsistent r'
unfolding miss
miss-IsConsistent r r' f p v e room h = record {
  mru_sized = ground arith;
  mfu_sized = ground arith;
  mru_ghost_sized = ground (arith, length-pop_back r.mru_ghost_list r'.mru_ghost_list);
  mfu_ghost_sized = ground (arith, length-pop_back r.mfu_ghost_list r'.mfu_ghost_list);
  mru_tracked = λ g. ground (arith, v.mru_tracked g, v.mru_tracked f);
  mfu_tracked = λ g. ground (arith, v.mfu_tracked g, v.mfu_tracked f);
  alive = λ g. ground (arith, v.alive g);
  ghost = λ g. ground (arith, v.ghost g);
  counted = ground (
    arith,
    v.mru_tracked f,
    v.mfu_tracked f,
    evictables-update r.alive_map f (r'.alive_map f) r.mru_list,
    evictables-update r.alive_map f (r'.alive_map f) r.mfu_list,
  );
  recent_fits = ground (arith, length-pop_back r.mru_ghost_list r'.mru_ghost_list);
  live_fits = ground arith;
  all_fits = ground (
    arith,
    length-pop_back r.mru_ghost_list r'.mru_ghost_list,
    length-pop_back r.mfu_ghost_list r'.mfu_ghost_list,
  );
  small = ground arith;
}

miss-returns :
    (r : ArcReplacer) (f p : ℕ)
    → IsConsistent r
    → length r.mru_list + length r.mfu_list < r.replacer_size
    → is_ok (miss r f p) ≡ true
unfolding miss
miss-returns r f p v room =
    ground (arith, pop_back-returns r.mru_ghost_list, pop_back-returns r.mfu_ghost_list)

-- A page's entry of `ghost_map_` stands in the ghost list that its status names.
abbrev pub IsListed : ArcReplacer → ℕ → Option FrameStatus → Type 0
IsListed r p none = Unit {0}
IsListed r p (some fs) = elim fs.arc_status [
  | mru_ghost ↦ contains p r.mru_ghost_list ≡ true
  | mfu_ghost ↦ contains p r.mfu_ghost_list ≡ true
  | _ ↦ Unit {0}
]

length_of_contains : (a : ℕ) (xs : List ℕ) → contains a xs ≡ true → 0 < length xs
length_of_contains a [] h = cc
length_of_contains a (x ∷ xs) h = omega arith

hit_ghost-returns :
    (r : ArcReplacer) (f p : ℕ) (fs : FrameStatus)
    → IsConsistent r
    → IsListed r p (some fs)
    → is_ok (hit_ghost r f p fs) ≡ true
unfolding hit_ghost
hit_ghost-returns r f p fs v l =
    ground (arith, length_of_contains p r.mru_ghost_list, length_of_contains p r.mfu_ghost_list)

-- What `record_access` does to a consistent replacer, case by case.
access-returns :
    (r : ArcReplacer) (f p : ℕ) (a g : Option FrameStatus)
    → r.alive_map f ≡ a
    → r.ghost_map p ≡ g
    → IsConsistent r
    → (a ≡ none → length r.mru_list + length r.mfu_list < r.replacer_size)
    → IsListed r p g
    → (r' : ArcReplacer) × (access r f p a g ≡ ok r') × IsConsistent r'
unfolding access hit_alive
access-returns r f p (some fs) g ea eg v room l =
    let (r', e) = ok_value (hit_alive r f fs) (ground (arith, unlink-returns r f fs v ea)) in
    (r', e, hit_alive-IsConsistent r r' f fs v ea e)
access-returns r f p none (some fs) ea eg v room l =
    let (r', e) = ok_value (hit_ghost r f p fs) (hit_ghost-returns r f p fs v l) in
    (r', e, hit_ghost-IsConsistent r r' f p fs v ea eg (room refl) e)
access-returns r f p none none ea eg v room l =
    let (r', e) = ok_value (miss r f p) (miss-returns r f p v (room refl)) in
    (r', e, miss-IsConsistent r r' f p v ea (room refl) e)

-- `RecordAccess` returns and keeps the invariant, if a new frame leaves room for itself and the
-- page's ghost entry, where it has one, stands in its ghost list.
pub record_access-IsConsistent :
    (r : ArcReplacer) (f p : ℕ)
    → IsConsistent r
    → (r.alive_map f ≡ none → length r.mru_list + length r.mfu_list < r.replacer_size)
    → IsListed r p (r.ghost_map p)
    → (r' : ArcReplacer) × (record_access r f p ≡ ok r') × IsConsistent r'
unfolding record_access
record_access-IsConsistent r f p = access-returns r f p _ _ refl refl
