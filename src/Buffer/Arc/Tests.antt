-- ===== src/Buffer/Arc/Tests.antt =====
-- Small runs of `ArcReplacer`, and the theorems about it at concrete inputs.
use database_internals.Prelude.{
  ℕ, ◌+◌, ◌≤◌, ◌<◌, ◌≡◌, ◌≢◌, refl, ◌⊎◌, Bool, true, false, none, some, List, [], ◌∷◌,
  if◌then◌else◌, count, update, Outcome, ok, aborted, arith, ◌==◌, is_ok, ◌>>=◌,
}
use mathlib.Core.Option
use database_internals.Buffer.Arc.{
  mru, mfu, mru_ghost, ArcReplacer, size, set_evictable, remove, init, record_access, evict,
}
use database_internals.Buffer.Arc.Invariant.{IsConsistent, evictable}
use database_internals.Buffer.Arc.Access.{record_access-IsConsistent}
use database_internals.Buffer.Arc.Ghosts.{record_access-IsFront, record_access-drops_ghost, IsFront}
use database_internals.Buffer.Arc.Evict.{evict-TakesVictim, TakesVictim, evict-Evicted, Evicted}
use database_internals.Buffer.Arc.Flags.{with_flag, set_evictable-IsConsistent, remove-IsConsistent}

-- A pool of one frame, whose frame 0 holds page 7.
abbrev one : ArcReplacer
one = record {
  mru_list = 0 ∷ [];
  mfu_list = [];
  mru_ghost_list = [];
  mfu_ghost_list = [];
  mru_size = 1;
  mfu_size = 0;
  mru_ghost_size = 0;
  mfu_ghost_size = 0;
  alive_map =
      update (λ _. none) 0
        (some (record { page_id = 7; frame_id = 0; evictable = true; arc_status = mru }));
  ghost_map = λ _. none;
  curr_size = 1;
  mru_target_size = 0;
  replacer_size = 1;
}

one_tracked : (f : ℕ) → count f one.mru_list ≡ (if f == 0 then 1 else 0)
one_tracked f = ground arith

one-IsConsistent : IsConsistent one
one-IsConsistent = record {
  mru_sized = refl;
  mfu_sized = refl;
  mru_ghost_sized = refl;
  mfu_ghost_sized = refl;
  mru_tracked = λ f. ground arith;
  mfu_tracked = λ f. ground arith;
  alive = λ f. ground arith;
  ghost = λ p. tt;
  counted = refl;
  recent_fits = omega arith;
  live_fits = omega arith;
  all_fits = omega arith;
  small = omega arith;
}

-- The first page is recorded, made evictable, evicted, and comes back into `mfu_`.
come_back : Outcome (List ℕ × List ℕ × ℕ)
unfolding init record_access set_evictable evict size
come_back = do
  a ← record_access (init 2) 0 7
  b ← set_evictable a 0 true
  (victim, c) ← evict b
  d ← record_access c 1 7
  ok (d.mfu_list, d.mru_ghost_list, size d)

come_back_run : come_back ≡ ok (1 ∷ [], [], 0)
unfolding come_back
come_back_run = refl

record_access-IsConsistent_example :
    (r' : ArcReplacer) × (record_access one 0 7 ≡ ok r') × IsConsistent r'
record_access-IsConsistent_example =
    record_access-IsConsistent one 0 7 one-IsConsistent (λ e. cc) tt

evict-TakesVictim_example : TakesVictim one
evict-TakesVictim_example = evict-TakesVictim one one-IsConsistent (unfold size in omega arith)

evict-Evicted_example : Evicted one
evict-Evicted_example = evict-Evicted one one-IsConsistent

remove-IsConsistent_example :
    (r' : ArcReplacer) × (remove one 0 ≡ ok r')
    × IsConsistent r'
    × (r'.alive_map 0 ≡ none)
    × (size r' + 1 ≡ size one)
remove-IsConsistent_example = remove-IsConsistent one 0 _ one-IsConsistent refl refl

-- The page 7 is a ghost of a pool of one frame, which is free again.
abbrev ghostly : ArcReplacer
ghostly = record {
  mru_list = [];
  mfu_list = [];
  mru_ghost_list = 7 ∷ [];
  mfu_ghost_list = [];
  mru_size = 0;
  mfu_size = 0;
  mru_ghost_size = 1;
  mfu_ghost_size = 0;
  alive_map = λ _. none;
  ghost_map =
      update (λ _. none) 7
        (some (record {
          page_id = 7;
          frame_id = 0xffffffff;
          evictable = true;
          arc_status = mru_ghost;
        }));
  curr_size = 0;
  mru_target_size = 0;
  replacer_size = 1;
}

ghostly-IsConsistent : IsConsistent ghostly
ghostly-IsConsistent = record {
  mru_sized = refl;
  mfu_sized = refl;
  mru_ghost_sized = refl;
  mfu_ghost_sized = refl;
  mru_tracked = λ f. refl;
  mfu_tracked = λ f. refl;
  alive = λ f. tt;
  ghost = λ p. ground arith;
  counted = refl;
  recent_fits = omega arith;
  live_fits = omega arith;
  all_fits = omega arith;
  small = omega arith;
}

-- What remains once page 8 has come in.
abbrev haunted : ArcReplacer
haunted = record ghostly {
  mru_list = 0 ∷ [];
  mru_ghost_list = [];
  mru_size = 1;
  mru_ghost_size = 0;
  alive_map =
      update (λ _. none) 0
        (some (record { page_id = 8; frame_id = 0; evictable = false; arc_status = mru }));
}

record_access-IsFront_example :
    ((ghostly.alive_map 0 ≡ none)
      × (ghostly.ghost_map 8 ≡ none)
      × (haunted.mru_list ≡ 0 ∷ [])
      × (haunted.alive_map 0
          ≡ some (record { page_id = 8; frame_id = 0; evictable = false; arc_status = mru })))
    ⊎ (((ghostly.alive_map 0 ≢ none)
          ⊎ ((ghostly.alive_map 0 ≡ none) × (ghostly.ghost_map 8 ≢ none)))
        × IsFront haunted.mfu_list 0 mfu (haunted.alive_map 0))
unfolding record_access
record_access-IsFront_example = record_access-IsFront ghostly haunted 0 8 ghostly-IsConsistent refl

record_access-drops_ghost_example : is_ok (record_access haunted 1 7) ≡ false
unfolding record_access
record_access-drops_ghost_example =
    record_access-drops_ghost ghostly haunted 0 8 1 7 [] _ ghostly-IsConsistent refl refl refl refl
      refl refl refl refl refl

abbrev MovedOne : ArcReplacer → Bool → Type 0
MovedOne r b = ((r.replacer_size ≤ 0) × (set_evictable r 0 b ≡ aborted)) ⊎ (record {
  near : 0 < r.replacer_size;
  after : ArcReplacer;
  returned : set_evictable r 0 b ≡ ok after;
  consistent : IsConsistent after;
  flagged : after.alive_map 0 ≡ Option.map (with_flag b) (r.alive_map 0);
  moved : size after + evictable (r.alive_map 0) ≡ size r + evictable (after.alive_map 0);
})

set_evictable-IsConsistent_example : MovedOne one false
set_evictable-IsConsistent_example = set_evictable-IsConsistent one 0 false one-IsConsistent
