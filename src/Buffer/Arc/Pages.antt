-- ===== src/Buffer/Arc/Pages.antt =====
-- Which page each frame holds, as the operations of `ArcReplacer` see it.
use database_internals.Prelude.{
  ℕ, ◌≡◌, ap, ◌∙◌, ◌⊎◌, inl, inr, Bool, Option, none, some, List, Outcome, ok, update, arith,
  Bool-cases, Option-cases, >>=-eq-ok, leb, ◌≢◌, ltb, add_size,
}
use database_internals.Buffer.Arc.{
  FrameStatus, ArcReplacer, ArcStatus, mru, mfu, mru_ghost, mfu_ghost, evict_from, evict, to_ghost,
  pick, pick_mru, pick_mfu, retire, or_else, take_mru, take_mfu, unlink, hit_alive, hit_ghost,
  unlink_ghost, make_room, miss, access, record_access, set_evictable, flag, remove, drop_entry,
  Victim, ratio,
}

abbrev pub page_of : ArcReplacer → ℕ → Option ℕ
page_of r f = elim (r.alive_map f) [ none ↦ none | some fs ↦ some fs.page_id ]

-- A ghost entry is filed under its own page.
abbrev pub HasOwnGhosts : ArcReplacer → Type 0
HasOwnGhosts r = (p : ℕ) (fs : FrameStatus) → r.ghost_map p ≡ some fs → fs.page_id ≡ p

unlink-maps :
    (r u : ArcReplacer) (f : ℕ) (s : ArcStatus)
    → unlink r f s ≡ ok u
    → (u.alive_map ≡ r.alive_map)
      × (u.ghost_map ≡ r.ghost_map)
      × (u.replacer_size ≡ r.replacer_size)
unfolding unlink
unlink-maps r u f mru h = ground arith
unlink-maps r u f mfu h = ground arith
unlink-maps r u f mru_ghost h = cc
unlink-maps r u f mfu_ghost h = cc

unlink_ghost-maps :
    (r u : ArcReplacer) (p : ℕ) (s : ArcStatus)
    → unlink_ghost r p s ≡ ok u
    → (u.alive_map ≡ r.alive_map)
      × (u.ghost_map ≡ r.ghost_map)
      × (u.replacer_size ≡ r.replacer_size)
unfolding unlink_ghost
unlink_ghost-maps r u p mru h = ground arith
unlink_ghost-maps r u p mfu h = ground arith
unlink_ghost-maps r u p mru_ghost h =
    let (n, en, e) = >>=-eq-ok (ratio r.mru_ghost_size r.mfu_ghost_size) _ h in ground arith
unlink_ghost-maps r u p mfu_ghost h =
    let (n, en, e) = >>=-eq-ok (ratio r.mfu_ghost_size r.mru_ghost_size) _ h in ground arith

make_room-maps :
    (r u : ArcReplacer)
    → make_room r ≡ ok u
    → (u.alive_map ≡ r.alive_map)
      × (u.ghost_map ≡ r.ghost_map)
      × (u.replacer_size ≡ r.replacer_size)
unfolding make_room
make_room-maps r u h = ground arith

-- After an access the frame holds the page, and the other frames what they held.
pub record_access-page_of :
    (r r' : ArcReplacer) (f p : ℕ)
    → HasOwnGhosts r
    → (page_of r f ≡ none) ⊎ (page_of r f ≡ some p)
    → record_access r f p ≡ ok r'
    → ((g : ℕ) → page_of r' g ≡ update (page_of r) f (some p) g)
      × HasOwnGhosts r'
      × (r'.replacer_size ≡ r.replacer_size)
unfolding record_access access hit_alive hit_ghost miss
record_access-page_of r r' f p own held h = elim (Option-cases (r.alive_map f)) [
  | inr (fs, e) ↦
      let (u, eu, e') = >>=-eq-ok (unlink r f fs.arc_status) _ (rw e at h) in
      let m = unlink-maps r u f fs.arc_status eu in
      (λ g. ground (arith, m), λ q gs eq. ground (arith, m, own q gs), ground (arith, m))
  | inl e ↦ elim (Option-cases (r.ghost_map p)) [
    | inr (gs, eg) ↦
        let (u, eu, e') = >>=-eq-ok (unlink_ghost r p gs.arc_status) _ (rw (e, eg) at h) in
        let m = unlink_ghost-maps r u p gs.arc_status eu in
        (
          λ g. ground (arith, m, own p gs eg),
          λ q hs eq. ground (arith, m, own q hs),
          ground (arith, m),
        )
    | inl eg ↦ elim (Bool-cases (ltb r.replacer_size (add_size r.mru_ghost_size r.mru_size))) [
      | inl full ↦ absurd (ground arith)
      | inr room ↦
          let (u, eu, e') = >>=-eq-ok (make_room r) _ (rw (e, eg, room) at h) in
          let m = make_room-maps r u eu in
          (λ g. ground (arith, m), λ q hs eq. ground (arith, m, own q hs), ground (arith, m))
    ]
  ]
]

pub set_evictable-page_of :
    (r r' : ArcReplacer) (f : ℕ) (b : Bool)
    → HasOwnGhosts r
    → set_evictable r f b ≡ ok r'
    → ((g : ℕ) → page_of r' g ≡ page_of r g)
      × HasOwnGhosts r'
      × (r'.replacer_size ≡ r.replacer_size)
unfolding set_evictable flag
set_evictable-page_of r r' f b own h = elim (Option-cases (r.alive_map f)) [
  | inl e ↦ (λ g. ground (arith, e), λ q gs eq. ground (arith, own q gs), ground arith)
  | inr (fs, e) ↦ (λ g. ground (arith, e), λ q gs eq. ground (arith, own q gs), ground arith)
]

pub remove-page_of :
    (r r' : ArcReplacer) (f : ℕ)
    → HasOwnGhosts r
    → remove r f ≡ ok r'
    → ((g : ℕ) → page_of r' g ≡ update (page_of r) f none g)
      × HasOwnGhosts r'
      × (r'.replacer_size ≡ r.replacer_size)
unfolding remove drop_entry
remove-page_of r r' f own h = elim (Option-cases (r.alive_map f)) [
  | inl e ↦ (λ g. ground (arith, e), λ q gs eq. ground (arith, own q gs), ground arith)
  | inr (fs, e) ↦ elim (Bool-cases fs.evictable) [
    | inl y ↦
        let (u, eu, e') = >>=-eq-ok (unlink r f fs.arc_status) _ (rw (e, y) at h) in
        let m = unlink-maps r u f fs.arc_status eu in
        (λ g. ground (arith, m), λ q gs eq. ground (arith, m, own q gs), ground (arith, m))
    | inr n ↦ absurd (ground arith)
  ]
]

-- A victim is taken out of a list; the maps stay as they are.
record IsTaken (r : ArcReplacer) (v : Victim) : Type 0 where
  alive : v.after.alive_map ≡ r.alive_map
  ghost : v.after.ghost_map ≡ r.ghost_map
  sized : v.after.replacer_size ≡ r.replacer_size

take_mru-IsTaken :
    (r : ArcReplacer) (o : Option (ℕ × List ℕ)) (v : Victim) → take_mru r o ≡ some v → IsTaken r v
unfolding take_mru
take_mru-IsTaken r none v h = cc
take_mru-IsTaken r (some (f, rest)) v h = record {
  alive = ground arith;
  ghost = ground arith;
  sized = ground arith;
}

take_mfu-IsTaken :
    (r : ArcReplacer) (o : Option (ℕ × List ℕ)) (v : Victim) → take_mfu r o ≡ some v → IsTaken r v
unfolding take_mfu
take_mfu-IsTaken r none v h = cc
take_mfu-IsTaken r (some (f, rest)) v h = record {
  alive = ground arith;
  ghost = ground arith;
  sized = ground arith;
}

pick_mru-IsTaken : (r : ArcReplacer) (v : Victim) → pick_mru r ≡ ok (some v) → IsTaken r v
unfolding pick_mru
pick_mru-IsTaken r v h =
    let (o, eo, e) = >>=-eq-ok (evict_from r.alive_map r.mru_list) _ h in
    take_mru-IsTaken r o v (ground arith)

pick_mfu-IsTaken : (r : ArcReplacer) (v : Victim) → pick_mfu r ≡ ok (some v) → IsTaken r v
unfolding pick_mfu
pick_mfu-IsTaken r v h =
    let (o, eo, e) = >>=-eq-ok (evict_from r.alive_map r.mfu_list) _ h in
    take_mfu-IsTaken r o v (ground arith)

or_else-cases :
    (o : Option Victim) (other : Outcome (Option Victim)) (v : Victim)
    → or_else o other ≡ ok (some v)
    → (o ≡ some v) ⊎ (other ≡ ok (some v))
unfolding or_else
or_else-cases none other v h = inr h
or_else-cases (some w) other v h = inl (ground arith)

pick-IsTaken : (r : ArcReplacer) (v : Victim) → pick r ≡ ok (some v) → IsTaken r v
unfolding pick
pick-IsTaken r v h = elim (Bool-cases (leb r.mru_target_size r.mru_size)) [
  | inl y ↦
      let (o, eo, e) = >>=-eq-ok (pick_mru r) _ (rw y at h) in
      elim (or_else-cases o (pick_mfu r) v e) [
        | inl t ↦ pick_mru-IsTaken r v (eo ∙ ap ok t)
        | inr t ↦ pick_mfu-IsTaken r v t
      ]
  | inr n ↦
      let (o, eo, e) = >>=-eq-ok (pick_mfu r) _ (rw n at h) in
      elim (or_else-cases o (pick_mru r) v e) [
        | inl t ↦ pick_mfu-IsTaken r v (eo ∙ ap ok t)
        | inr t ↦ pick_mru-IsTaken r v t
      ]
]

-- What an eviction does to the maps.
pub record Evicts (r r' : ArcReplacer) (p f : ℕ) : Type 0 where
  pub held : page_of r f ≡ some p
  pub others : (g : ℕ) → page_of r' g ≡ update (page_of r) f none g
  pub own : HasOwnGhosts r'
  pub sized : r'.replacer_size ≡ r.replacer_size

retire-Evicts :
    (r r' : ArcReplacer) (p f : ℕ) (o : Option Victim)
    → HasOwnGhosts r
    → pick r ≡ ok o
    → retire r o ≡ ok (some (p, f), r')
    → Evicts r r' p f
unfolding retire to_ghost
retire-Evicts r r' p f none own eo h = cc
retire-Evicts r r' p f (some v) own eo h =
    let t = pick-IsTaken r v eo in
    elim (Option-cases (v.after.alive_map v.frame)) [
      | inl e ↦ absurd (ground arith)
      | inr (fs, e) ↦ elim (Bool-cases v.from_mru) [
        | inl y ↦ record {
          held = ground (arith, t.alive);
          others = λ g. ground (arith, t.alive);
          own = λ q gs eq. ground (arith, t.ghost, own q gs);
          sized = ground (arith, t.sized);
        }
        | inr n ↦ record {
          held = ground (arith, t.alive);
          others = λ g. ground (arith, t.alive);
          own = λ q gs eq. ground (arith, t.ghost, own q gs);
          sized = ground (arith, t.sized);
        }
      ]
    ]

-- An eviction takes its frame from a page.
pub evict-Evicts :
    (r r' : ArcReplacer) (p f : ℕ)
    → HasOwnGhosts r
    → evict r ≡ ok (some (p, f), r')
    → Evicts r r' p f
unfolding evict
evict-Evicts r r' p f own h =
    let (o, eo, e) = >>=-eq-ok (pick r) (retire r) h in retire-Evicts r r' p f o own eo e

retire-none : (r r' : ArcReplacer) (o : Option Victim) → retire r o ≡ ok (none, r') → r' ≡ r
unfolding retire
retire-none r r' none h = ground arith
retire-none r r' (some v) h = absurd (ground arith)

pub evict-none : (r r' : ArcReplacer) → evict r ≡ ok (none, r') → r' ≡ r
unfolding evict
evict-none r r' h = let (o, eo, e) = >>=-eq-ok (pick r) (retire r) h in retire-none r r' o e

-- An access leaves the frame alive.
pub record_access-alive :
    (r r' : ArcReplacer) (f p : ℕ) → record_access r f p ≡ ok r' → r'.alive_map f ≢ none
unfolding record_access access hit_alive hit_ghost miss
record_access-alive r r' f p h = elim (Option-cases (r.alive_map f)) [
  | inr (fs, e) ↦
      let (u, eu, e') = >>=-eq-ok (unlink r f fs.arc_status) _ (rw e at h) in λ n. ground arith
  | inl e ↦ elim (Option-cases (r.ghost_map p)) [
    | inr (gs, eg) ↦
        let (u, eu, e') = >>=-eq-ok (unlink_ghost r p gs.arc_status) _ (rw (e, eg) at h) in
        λ n. ground arith
    | inl eg ↦ elim (Bool-cases (ltb r.replacer_size (add_size r.mru_ghost_size r.mru_size))) [
      | inl full ↦ absurd (ground arith)
      | inr room ↦
          let (u, eu, e') = >>=-eq-ok (make_room r) _ (rw (e, eg, room) at h) in λ n. ground arith
    ]
  ]
]
