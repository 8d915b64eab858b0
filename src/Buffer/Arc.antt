-- ===== src/Buffer/Arc.antt =====
-- buffer/arc_replacer.h and buffer/arc_replacer.cpp: the state of `ArcReplacer` and its operations.
-- A map is a function into `Option`; the two maps share `FrameStatus` objects by pointer, but an
-- object is moved from one map to the other, so that an entry is a value here.
pub mod Invariant
pub mod Access
pub mod Ghosts
pub mod Scan
pub mod Evict
pub mod Flags
pub mod Pages
mod Tests
use database_internals.Prelude.{
  ℕ, ◌+◌, ◌*◌, ◌/◌, Bool, true, false, Option, none, some, List, [], ◌∷◌, if◌then◌else◌, ltb, leb,
  ◌==◌, contains, erase, update, Outcome, ok, aborted, undefined, ◌>>=◌, or_fail, add_size,
  sub_size,
}

pub data ArcStatus : Type 0 where
  mru mfu mru_ghost mfu_ghost : ArcStatus

pub record FrameStatus : Type 0 where
  pub page_id : ℕ
  pub frame_id : ℕ
  pub evictable : Bool
  pub arc_status : ArcStatus

abbrev pub invalid_frame_id : ℕ
invalid_frame_id = 0xffffffff

-- The lists hold the front first.
pub record ArcReplacer : Type 0 where
  pub mru_list : List ℕ
  pub mfu_list : List ℕ
  pub mru_ghost_list : List ℕ
  pub mfu_ghost_list : List ℕ
  pub mru_size : ℕ
  pub mfu_size : ℕ
  pub mru_ghost_size : ℕ
  pub mfu_ghost_size : ℕ
  pub alive_map : ℕ → Option FrameStatus
  pub ghost_map : ℕ → Option FrameStatus
  pub curr_size : ℕ
  pub mru_target_size : ℕ
  pub replacer_size : ℕ

unfoldable pub init : ℕ → ArcReplacer
init num_frames = record {
  mru_list = [];
  mfu_list = [];
  mru_ghost_list = [];
  mfu_ghost_list = [];
  mru_size = 0;
  mfu_size = 0;
  mru_ghost_size = 0;
  mfu_ghost_size = 0;
  alive_map = λ _. none;
  ghost_map = λ _. none;
  curr_size = 0;
  mru_target_size = 0;
  replacer_size = num_frames;
}

-- One frame of the scan in `EvictFrom`, and what the scan of the frames behind it found.
pub probe : ℕ → List ℕ → Option FrameStatus → Option (ℕ × List ℕ) → Outcome (Option (ℕ × List ℕ))
probe x xs entry (some (victim, rest)) = ok (some (victim, x ∷ rest))
probe x xs none none = aborted
probe x xs (some fs) none = if fs.evictable then ok (some (x, xs)) else ok none

-- `EvictFrom`: the list from back to front, up to the first evictable frame, which is taken out.
pub evict_from : (ℕ → Option FrameStatus) → List ℕ → Outcome (Option (ℕ × List ℕ))
unfolding probe
evict_from alive [] = ok none
evict_from alive (x ∷ xs) = evict_from alive xs >>= probe x xs (alive x)

-- A frame taken from a list, with the flag `evicted_from_mru`.
pub record Victim : Type 0 where
  pub frame : ℕ
  pub from_mru : Bool
  pub after : ArcReplacer

pub take_mru : ArcReplacer → Option (ℕ × List ℕ) → Option Victim
take_mru r none = none
take_mru r (some (f, rest)) =
    some (record { frame = f; from_mru = true; after = record r { mru_list = rest } })

pub take_mfu : ArcReplacer → Option (ℕ × List ℕ) → Option Victim
take_mfu r none = none
take_mfu r (some (f, rest)) =
    some (record { frame = f; from_mru = false; after = record r { mfu_list = rest } })

pub or_else {ℓ} : {A : Type ℓ} → Option A → Outcome (Option A) → Outcome (Option A)
or_else (some a) other = ok (some a)
or_else none other = other

pub pick_mru : ArcReplacer → Outcome (Option Victim)
unfolding evict_from take_mru
pick_mru r = do v ← evict_from r.alive_map r.mru_list; ok (take_mru r v)

pub pick_mfu : ArcReplacer → Outcome (Option Victim)
unfolding evict_from take_mfu
pick_mfu r = do v ← evict_from r.alive_map r.mfu_list; ok (take_mfu r v)

-- The preferred list first, the other one if that has no evictable frame.
pub pick : ArcReplacer → Outcome (Option Victim)
unfolding pick_mru pick_mfu or_else
pick r =
    if leb r.mru_target_size r.mru_size
    then (do v ← pick_mru r; or_else v (pick_mfu r))
    else (do v ← pick_mfu r; or_else v (pick_mru r))

-- The bookkeeping of `Evict` once a victim is out of its list.
pub to_ghost : ArcReplacer → ℕ → FrameStatus → Bool → ArcReplacer
to_ghost r f fs true = record r {
  mru_size = sub_size r.mru_size 1;
  mru_ghost_list = fs.page_id ∷ r.mru_ghost_list;
  mru_ghost_size = add_size r.mru_ghost_size 1;
  alive_map = update r.alive_map f none;
  ghost_map =
      update r.ghost_map fs.page_id
        (some (record fs { frame_id = invalid_frame_id; arc_status = mru_ghost }));
  curr_size = sub_size r.curr_size 1;
}
to_ghost r f fs false = record r {
  mfu_size = sub_size r.mfu_size 1;
  mfu_ghost_list = fs.page_id ∷ r.mfu_ghost_list;
  mfu_ghost_size = add_size r.mfu_ghost_size 1;
  alive_map = update r.alive_map f none;
  ghost_map =
      update r.ghost_map fs.page_id
        (some (record fs { frame_id = invalid_frame_id; arc_status = mfu_ghost }));
  curr_size = sub_size r.curr_size 1;
}

-- `alive_map_.find(frame_id)` is dereferenced without a test.
pub retire : ArcReplacer → Option Victim → Outcome (Option (ℕ × ℕ) × ArcReplacer)
unfolding to_ghost
retire r none = ok (none, r)
retire r (some v) = do
  fs ← or_fail (v.after.alive_map v.frame) undefined
  ok (some (fs.page_id, v.frame), to_ghost v.after v.frame fs v.from_mru)

pub evict : ArcReplacer → Outcome (Option (ℕ × ℕ) × ArcReplacer)
unfolding pick retire
evict r = do v ← pick r; retire r v

-- Taking an alive frame out of the list that its status names, as in `RecordAccess` and `Remove`.
unfoldable pub unlink : ArcReplacer → ℕ → ArcStatus → Outcome ArcReplacer
unlink r f mru =
    if contains f r.mru_list
    then ok (record r { mru_list = erase f r.mru_list; mru_size = sub_size r.mru_size 1 })
    else aborted
unlink r f mfu =
    if contains f r.mfu_list
    then ok (record r { mfu_list = erase f r.mfu_list; mfu_size = sub_size r.mfu_size 1 })
    else aborted
unlink r f _ = aborted

unfoldable pub hit_alive : ArcReplacer → ℕ → FrameStatus → Outcome ArcReplacer
unfolding unlink
hit_alive r f fs = do
  u ← unlink r f fs.arc_status
  ok (record u {
    mfu_list = fs.frame_id ∷ u.mfu_list;
    mfu_size = add_size u.mfu_size 1;
    alive_map = update u.alive_map f (some (record fs { arc_status = mfu }));
  })

-- `a >= b ? 1 : b / a`; a division by zero is undefined.
unfoldable pub ratio : ℕ → ℕ → Outcome ℕ
ratio a b = if leb b a then ok 1 else if a == 0 then undefined else ok (b / a)

-- Adjusting the target and taking a page out of the ghost list that its status names. An entry
-- with another status falls through.
unfoldable pub unlink_ghost : ArcReplacer → ℕ → ArcStatus → Outcome ArcReplacer
unfolding ratio
unlink_ghost r p mru_ghost = do
  increase ← ratio r.mru_ghost_size r.mfu_ghost_size
  if contains p r.mru_ghost_list
      then ok (record r {
        mru_target_size = add_size r.mru_target_size increase;
        mru_ghost_list = erase p r.mru_ghost_list;
        mru_ghost_size = sub_size r.mru_ghost_size 1;
      })
      else aborted
unlink_ghost r p mfu_ghost = do
  decrease ← ratio r.mfu_ghost_size r.mru_ghost_size
  if contains p r.mfu_ghost_list
      then ok (record r {
        mru_target_size =
            if leb decrease r.mru_target_size
            then sub_size r.mru_target_size decrease
            else r.mru_target_size;
        mfu_ghost_list = erase p r.mfu_ghost_list;
        mfu_ghost_size = sub_size r.mfu_ghost_size 1;
      })
      else aborted
unlink_ghost r p mru = ok r
unlink_ghost r p mfu = ok r

unfoldable pub hit_ghost : ArcReplacer → ℕ → ℕ → FrameStatus → Outcome ArcReplacer
unfolding unlink_ghost
hit_ghost r f p fs = do
  u ← unlink_ghost r p fs.arc_status
  ok (record u {
    mfu_list = f ∷ u.mfu_list;
    mfu_size = add_size u.mfu_size 1;
    ghost_map = update u.ghost_map p none;
    alive_map =
        update u.alive_map f
          (some (record fs { frame_id = f; arc_status = mfu; evictable = false }));
  })

-- `pop_back`, which is undefined on an empty list.
unfoldable pub pop_back : List ℕ → Outcome (List ℕ)
pop_back [] = undefined
pop_back (x ∷ []) = ok []
pop_back (x ∷ (y ∷ ys)) = do rest ← pop_back (y ∷ ys); ok (x ∷ rest)

-- Making room in the ghost lists before a new page comes in.
unfoldable pub make_room : ArcReplacer → Outcome ArcReplacer
unfolding pop_back
make_room r =
    if add_size r.mru_size r.mru_ghost_size == r.replacer_size
    then (do
      rest ← pop_back r.mru_ghost_list
      ok (record r { mru_ghost_list = rest; mru_ghost_size = sub_size r.mru_ghost_size 1 }))
    else if add_size (add_size (add_size r.mru_size r.mru_ghost_size) r.mfu_size) r.mfu_ghost_size
        == add_size r.replacer_size r.replacer_size
    then (do
      rest ← pop_back r.mfu_ghost_list
      ok (record r { mfu_ghost_list = rest; mfu_ghost_size = sub_size r.mfu_ghost_size 1 }))
    else ok r

unfoldable pub miss : ArcReplacer → ℕ → ℕ → Outcome ArcReplacer
unfolding make_room
miss r f p = if ltb r.replacer_size (add_size r.mru_ghost_size r.mru_size) then aborted else (do
  u ← make_room r
  ok (record u {
    mru_list = f ∷ u.mru_list;
    mru_size = add_size u.mru_size 1;
    alive_map =
        update u.alive_map f
          (some (record { page_id = p; frame_id = f; evictable = false; arc_status = mru }));
  }))

unfoldable pub access :
    ArcReplacer → ℕ → ℕ → Option FrameStatus → Option FrameStatus → Outcome ArcReplacer
unfolding hit_alive hit_ghost miss
access r f p (some fs) _ = hit_alive r f fs
access r f p none (some fs) = hit_ghost r f p fs
access r f p none none = miss r f p

unfoldable pub record_access : ArcReplacer → ℕ → ℕ → Outcome ArcReplacer
unfolding access
record_access r f p = access r f p (r.alive_map f) (r.ghost_map p)

abbrev same_flag : Bool → Bool → Bool
same_flag true b = b
same_flag false true = false
same_flag false false = true

unfoldable pub flag : ArcReplacer → ℕ → Bool → Option FrameStatus → ArcReplacer
flag r f evictable none = r
flag r f evictable (some fs) = if same_flag fs.evictable evictable then r else record r {
  alive_map = update r.alive_map f (some (record fs { evictable = evictable }));
  curr_size = if evictable then add_size r.curr_size 1 else sub_size r.curr_size 1;
}

unfoldable pub set_evictable : ArcReplacer → ℕ → Bool → Outcome ArcReplacer
unfolding flag
set_evictable r f evictable =
    if leb r.replacer_size f then aborted else ok (flag r f evictable (r.alive_map f))

pub drop_entry : ArcReplacer → ℕ → Option FrameStatus → Outcome ArcReplacer
unfolding unlink
drop_entry r f none = ok r
drop_entry r f (some fs) =
    if fs.evictable
    then (do
      u ← unlink r f fs.arc_status
      ok (record u { alive_map = update u.alive_map f none; curr_size = sub_size u.curr_size 1 }))
    else aborted

pub remove : ArcReplacer → ℕ → Outcome ArcReplacer
unfolding drop_entry
remove r f = drop_entry r f (r.alive_map f)

pub size : ArcReplacer → ℕ
size r = r.curr_size
