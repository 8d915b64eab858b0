-- ===== src/Buffer/Arc/Flags.antt =====
-- `SetEvictable` and `Remove` of `ArcReplacer`: what they change, what they keep, when they abort.
use database_internals.Prelude.{
  ℕ, ◌+◌, ◌^◌, ◌≤◌, ◌<◌, ◌≡◌, refl, ◌⊎◌, inl, inr, Bool, true, Option, none, some, erase, ok,
  aborted, arith, leb, ◌≢◌, contains-count, length-erase, count-erase, is_ok, ok_value, Bool-cases,
  Option-cases, sub_size,
}
use mathlib.Core.Option
use database_internals.Buffer.Arc.{
  FrameStatus, ArcReplacer, size, set_evictable, flag, remove, drop_entry, unlink,
}
use database_internals.Buffer.Arc.Invariant.{
  IsConsistent, evictable, evictables-update, evictables-le, evictables-erase,
}
use database_internals.Buffer.Arc.Access.{unlink-returns}

small : (r : ArcReplacer) → IsConsistent r → r.curr_size ≤ 2 ^ 33
small r v =
    omega
      (arith, v.counted, evictables-le r.alive_map r.mru_list, evictables-le r.alive_map r.mfu_list)

-- An evictable frame is counted.
positive : (r : ArcReplacer) (f : ℕ) → IsConsistent r → evictable (r.alive_map f) ≤ r.curr_size
positive r f v = ground (
  arith,
  v.counted,
  v.alive f,
  v.mru_tracked f,
  v.mfu_tracked f,
  contains-count f r.mru_list,
  contains-count f r.mfu_list,
  evictables-erase r.alive_map f r.mru_list,
  evictables-erase r.alive_map f r.mfu_list,
)

flag-IsConsistent :
    (r : ArcReplacer) (f : ℕ) (b : Bool) (o : Option FrameStatus)
    → r.alive_map f ≡ o
    → IsConsistent r
    → IsConsistent (flag r f b o)
unfolding flag
flag-IsConsistent r f b none e v = v
flag-IsConsistent r f b (some fs) e v = record {
  mru_sized = ground arith;
  mfu_sized = ground arith;
  mru_ghost_sized = ground arith;
  mfu_ghost_sized = ground arith;
  mru_tracked = λ g. ground (arith, v.mru_tracked g, v.mru_tracked f);
  mfu_tracked = λ g. ground (arith, v.mfu_tracked g, v.mfu_tracked f);
  alive = λ g. ground (arith, v.alive g, v.alive f);
  ghost = λ q. ground (arith, v.ghost q);
  counted = ground (
    arith,
    v.mru_tracked f,
    v.mfu_tracked f,
    v.alive f,
    evictables-le r.alive_map r.mru_list,
    evictables-le r.alive_map r.mfu_list,
    evictables-update r.alive_map f (some (record fs { evictable = b })) r.mru_list,
    evictables-update r.alive_map f (some (record fs { evictable = b })) r.mfu_list,
  );
  recent_fits = ground arith;
  live_fits = ground arith;
  all_fits = ground arith;
  small = ground arith;
}

abbrev pub with_flag : Bool → FrameStatus → FrameStatus
with_flag b fs = record fs { evictable = b }

-- `SetEvictable` aborts at a frame past the capacity; otherwise it keeps the invariant, sets the
-- flag of a frame that is alive, and moves `Size()` by the change of that flag.
pub set_evictable-IsConsistent :
    (r : ArcReplacer) (f : ℕ) (b : Bool)
    → IsConsistent r
    → ((r.replacer_size ≤ f) × (set_evictable r f b ≡ aborted)) ⊎ record {
      near : f < r.replacer_size;
      after : ArcReplacer;
      returned : set_evictable r f b ≡ ok after;
      consistent : IsConsistent after;
      flagged : after.alive_map f ≡ Option.map (with_flag b) (r.alive_map f);
      moved : size after + evictable (r.alive_map f) ≡ size r + evictable (after.alive_map f);
    }
unfolding set_evictable flag size
set_evictable-IsConsistent r f b v = elim (Bool-cases (leb r.replacer_size f)) [
  | inl far ↦ inl (ground arith, ground arith)
  | inr near ↦ inr (record {
    near = ground arith;
    after = flag r f b (r.alive_map f);
    returned = ground arith;
    consistent = flag-IsConsistent r f b _ refl v;
    flagged = ground arith;
    moved = ground (arith, small r v, positive r f v);
  })
]

drop_entry-IsConsistent :
    (r r' : ArcReplacer) (f : ℕ) (fs : FrameStatus)
    → IsConsistent r
    → r.alive_map f ≡ some fs
    → drop_entry r f (some fs) ≡ ok r'
    → IsConsistent r'
unfolding drop_entry
drop_entry-IsConsistent r r' f fs v e h = record {
  mru_sized = ground (arith, length-erase f r.mru_list);
  mfu_sized = ground (arith, length-erase f r.mfu_list);
  mru_ghost_sized = ground arith;
  mfu_ghost_sized = ground arith;
  mru_tracked = λ g. ground (
    arith,
    v.mru_tracked g,
    v.mru_tracked f,
    v.mfu_tracked f,
    count-erase f g r.mru_list,
    v.alive f,
  );
  mfu_tracked = λ g. ground (
    arith,
    v.mfu_tracked g,
    v.mru_tracked f,
    v.mfu_tracked f,
    count-erase f g r.mfu_list,
    v.alive f,
  );
  alive = λ g. ground (arith, v.alive g);
  ghost = λ q. ground (arith, v.ghost q);
  counted = ground (
    arith,
    v.mru_tracked f,
    v.mfu_tracked f,
    v.alive f,
    count-erase f f r.mru_list,
    count-erase f f r.mfu_list,
    evictables-le r.alive_map r.mru_list,
    evictables-le r.alive_map r.mfu_list,
    evictables-erase r.alive_map f r.mru_list,
    evictables-erase r.alive_map f r.mfu_list,
    evictables-update r.alive_map f none r.mru_list,
    evictables-update r.alive_map f none r.mfu_list,
    evictables-update r.alive_map f none (erase f r.mru_list),
    evictables-update r.alive_map f none (erase f r.mfu_list),
  );
  recent_fits = ground (arith, length-erase f r.mru_list);
  live_fits = ground (arith, length-erase f r.mru_list, length-erase f r.mfu_list);
  all_fits = ground (arith, length-erase f r.mru_list, length-erase f r.mfu_list);
  small = ground arith;
}

drop_entry-returns :
    (r : ArcReplacer) (f : ℕ) (fs : FrameStatus)
    → fs.evictable ≡ true
    → is_ok (unlink r f fs.arc_status) ≡ true
    → is_ok (drop_entry r f (some fs)) ≡ true
unfolding drop_entry
drop_entry-returns r f fs fl h = ground arith

drop_entry-effect :
    (r r' : ArcReplacer) (f : ℕ) (fs : FrameStatus)
    → drop_entry r f (some fs) ≡ ok r'
    → (r'.alive_map f ≡ none) × (r'.curr_size ≡ sub_size r.curr_size 1)
unfolding drop_entry
drop_entry-effect r r' f fs h = (ground arith, ground arith)

-- `Remove` of an evictable frame returns, forgets the frame, lowers `Size()` by one and keeps the
-- invariant.
pub remove-IsConsistent :
    (r : ArcReplacer) (f : ℕ) (fs : FrameStatus)
    → IsConsistent r
    → r.alive_map f ≡ some fs
    → fs.evictable ≡ true
    → (r' : ArcReplacer) × (remove r f ≡ ok r')
      × IsConsistent r'
      × (r'.alive_map f ≡ none)
      × (size r' + 1 ≡ size r)
unfolding remove size
remove-IsConsistent r f fs v e fl =
    let (r', er) = ok_value (drop_entry r f (some fs)) (returns (unlink-returns r f fs v e)) in
    (r', ground arith, drop_entry-IsConsistent r r' f fs v e er, forgets r' er, lowers r' er)
  where
    returns : is_ok (unlink r f fs.arc_status) ≡ true → is_ok (drop_entry r f (some fs)) ≡ true
    returns k = drop_entry-returns r f fs fl k

    forgets : (r' : ArcReplacer) → drop_entry r f (some fs) ≡ ok r' → r'.alive_map f ≡ none
    forgets r' er = (drop_entry-effect r r' f fs er).0

    lowers : (r' : ArcReplacer) → drop_entry r f (some fs) ≡ ok r' → size r' + 1 ≡ size r
    lowers r' er = ground (arith, drop_entry-effect r r' f fs er, small r v, positive r f v)

-- `Remove` of a frame that is not evictable aborts, and of one that is not alive changes nothing.
remove-refuses :
    (r : ArcReplacer) (f : ℕ)
    → evictable (r.alive_map f) ≡ 0
    → ((r.alive_map f ≡ none) × (remove r f ≡ ok r))
      ⊎ ((r.alive_map f ≢ none) × (remove r f ≡ aborted))
unfolding remove drop_entry
remove-refuses r f h = elim (Option-cases (r.alive_map f)) [
  | inl e ↦ inl (e, ground arith)
  | inr (fs, e) ↦ inr (λ n. cc, ground arith)
]

-- The flag, whatever the replacer.
pub set_evictable-flags :
    (r r' : ArcReplacer) (f : ℕ) (b : Bool)
    → set_evictable r f b ≡ ok r'
    → r'.alive_map f ≡ Option.map (with_flag b) (r.alive_map f)
unfolding set_evictable flag
set_evictable-flags r r' f b h = elim (Option-cases (r.alive_map f)) [
  | inl e ↦ ground (arith, e)
  | inr (fs, e) ↦ ground (arith, e)
]

-- Where the call has returned it returns again.
pub set_evictable-again :
    (r r' : ArcReplacer) (f : ℕ) (b c : Bool)
    → set_evictable r f b ≡ ok r'
    → (r'' : ArcReplacer) × (set_evictable r' f c ≡ ok r'')
unfolding set_evictable flag
set_evictable-again r r' f b c h = elim (Option-cases (r.alive_map f)) [
  | inl e ↦ (flag r' f c (r'.alive_map f), ground (arith, e))
  | inr (fs, e) ↦ (flag r' f c (r'.alive_map f), ground (arith, e))
]
