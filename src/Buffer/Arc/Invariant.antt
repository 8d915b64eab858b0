-- ===== src/Buffer/Arc/Invariant.antt =====
-- The invariant of `ArcReplacer`, and the operations that keep it.
use database_internals.Prelude.{
  ℕ, ◌+◌, ◌*◌, ◌^◌, ◌≤◌, ◌≡◌, refl, true, Option, none, some, List, [], ◌∷◌, if◌then◌else◌, length,
  count, contains, erase, update, arith,
}
use database_internals.Buffer.Arc.{mru, mfu, FrameStatus, ArcReplacer, init}

-- How often a frame with this map entry stands in `mru_`, and in `mfu_`.
abbrev pub in_mru : Option FrameStatus → ℕ
in_mru none = 0
in_mru (some fs) = elim fs.arc_status [ mru ↦ 1 | _ ↦ 0 ]

abbrev pub in_mfu : Option FrameStatus → ℕ
in_mfu none = 0
in_mfu (some fs) = elim fs.arc_status [ mfu ↦ 1 | _ ↦ 0 ]

-- An entry of `alive_map_` is under its own frame, in one of the two live lists.
abbrev pub IsAlive : ℕ → Option FrameStatus → Type 0
IsAlive f none = Unit {0}
IsAlive f (some fs) = (fs.frame_id ≡ f) × (in_mru (some fs) + in_mfu (some fs) ≡ 1)

-- An entry of `ghost_map_` has a ghost's status.
abbrev pub IsGhost : Option FrameStatus → Type 0
IsGhost none = Unit {0}
IsGhost (some fs) = in_mru (some fs) + in_mfu (some fs) ≡ 0

abbrev pub evictable : Option FrameStatus → ℕ
evictable none = 0
evictable (some fs) = if fs.evictable then 1 else 0

-- The evictable frames of a list.
abbrev pub evictables : (ℕ → Option FrameStatus) → List ℕ → ℕ
evictables alive [] = 0
evictables alive (x ∷ xs) = evictable (alive x) + evictables alive xs

pub record IsConsistent (r : ArcReplacer) : Type 0 where
  pub mru_sized : r.mru_size ≡ length r.mru_list
  pub mfu_sized : r.mfu_size ≡ length r.mfu_list
  pub mru_ghost_sized : r.mru_ghost_size ≡ length r.mru_ghost_list
  pub mfu_ghost_sized : r.mfu_ghost_size ≡ length r.mfu_ghost_list
  pub mru_tracked : (f : ℕ) → count f r.mru_list ≡ in_mru (r.alive_map f)
  pub mfu_tracked : (f : ℕ) → count f r.mfu_list ≡ in_mfu (r.alive_map f)
  pub alive : (f : ℕ) → IsAlive f (r.alive_map f)
  pub ghost : (p : ℕ) → IsGhost (r.ghost_map p)
  pub counted : r.curr_size ≡ evictables r.alive_map r.mru_list + evictables r.alive_map r.mfu_list
  pub recent_fits : length r.mru_list + length r.mru_ghost_list ≤ r.replacer_size
  pub live_fits : length r.mru_list + length r.mfu_list ≤ r.replacer_size
  pub all_fits :
      length r.mru_list + length r.mru_ghost_list + length r.mfu_list + length r.mfu_ghost_list
      ≤ 2 * r.replacer_size
  pub small : r.replacer_size ≤ 2 ^ 32

-- A fresh replacer is consistent.
pub init-IsConsistent : (n : ℕ) → n ≤ 2 ^ 32 → IsConsistent (init n)
unfolding init
init-IsConsistent n h = record {
  mru_sized = refl;
  mfu_sized = refl;
  mru_ghost_sized = refl;
  mfu_ghost_sized = refl;
  mru_tracked = λ f. refl;
  mfu_tracked = λ f. refl;
  alive = λ f. tt;
  ghost = λ p. tt;
  counted = refl;
  recent_fits = omega arith;
  live_fits = omega arith;
  all_fits = omega arith;
  small = h;
}

pub evictables-le : (alive : ℕ → Option FrameStatus) (xs : List ℕ) → evictables alive xs ≤ length xs
evictables-le alive [] = omega arith
evictables-le alive (x ∷ xs) = ground (arith, evictables-le alive xs)

-- Changing one entry moves the count by what changes, once for each time the frame is listed.
pub evictables-update :
    (alive : ℕ → Option FrameStatus) (f : ℕ) (v : Option FrameStatus) (xs : List ℕ)
    → evictables (update alive f v) xs + count f xs * evictable (alive f)
      ≡ evictables alive xs + count f xs * evictable v
evictables-update alive f v [] = omega arith
evictables-update alive f v (x ∷ xs) = grind (arith, evictables-update alive f v xs)

pub evictables-erase :
    (alive : ℕ → Option FrameStatus) (f : ℕ) (xs : List ℕ)
    → contains f xs ≡ true
    → evictables alive (erase f xs) + evictable (alive f) ≡ evictables alive xs
evictables-erase alive f [] h = ground arith
evictables-erase alive f (x ∷ xs) h = grind (arith, evictables-erase alive f xs)
