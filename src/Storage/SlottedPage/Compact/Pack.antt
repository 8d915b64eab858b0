-- ===== src/Storage/SlottedPage/Compact/Pack.antt =====
-- The loop of `compactify` that packs the records, on the slots that it is given.
use database_internals.Prelude.{
  ℕ, ◌+◌, ◌-◌, ◌%◌, ◌^◌, ◌≡◌, ◌≢◌, ◌<◌, ◌≤◌, ◌⊎◌, inl, inr, ◌∙◌, sym, ap, refl, List, [], ◌∷◌,
  arith, ◌==◌, length, Bool-cases, subst,
}
use database_internals.Memory.{Memory, write_bytes, read_bytes, write_le}
use database_internals.Memory.Laws.{
  read_bytes_ext, read_le_ext, write_bytes_apart, write_le_apart, length-read_bytes,
  read_le-write_le, read_le-write_le_apart, read_bytes-write_bytes, read_bytes-write_le_apart,
  read_le-write_bytes_apart,
}
use database_internals.Storage.SlottedPage.{slot_offset, slot_size, page_size, pack_one, pack_all}
use database_internals.Storage.SlottedPage.Compact.Below.{
  In, total, AreSlots, Descends, In-AreSlots, In-Descends, Descends-kept, total-kept,
}

-- One turn: the record of `s` now ends at `free`.
record IsPacked (p q : Memory) (s free free' : ℕ) : Type 0 where
  room : free' + slot_size p s ≡ free
  offset : slot_offset q s ≡ free'
  size : slot_size q s ≡ slot_size p s
  bytes : read_bytes q free' (slot_size p s) ≡ read_bytes p (slot_offset p s) (slot_size p s)
  others : (a : ℕ) → (a < s) ⊎ (s + 2 ≤ a) → (a < free') ⊎ (free ≤ a) → q a ≡ p a

-- The record is where it should be, or is moved there.
stays :
    (p : Memory) (s free g : ℕ)
    → g + slot_size p s ≡ free
    → slot_offset p s ≡ g
    → IsPacked p p s free g
stays p s free g r e = record {
  room = r;
  offset = e;
  size = refl;
  bytes = ap (λ o. read_bytes p o (slot_size p s)) (sym e);
  others = λ a x y. refl;
}

moves :
    (p : Memory) (s free g b : ℕ)
    → g + slot_size p s ≡ free
    → s + 4 ≤ b
    → b ≤ g
    → free ≤ page_size
    → IsPacked p
        (write_le 2 (write_bytes p g (read_bytes p (slot_offset p s) (slot_size p s))) s g)
        s
        free
        g
moves p s free g b r h1 h2 h3 = record {
  room = r;
  offset = read_le-write_le 2 copied s g (omega arith);
  size =
      read_le-write_le_apart 2 2 copied s (s + 2) g (inr (omega arith))
      ∙ read_le-write_bytes_apart 2 p g (s + 2) copy (inl (omega arith));
  bytes =
      read_bytes-write_le_apart 2 copied s g (slot_size p s) g (inr (omega arith))
      ∙ subst (λ n. read_bytes copied g n ≡ copy) long (read_bytes-write_bytes p g copy);
  others =
      λ a x y. write_le_apart 2 copied s a g x ∙ write_bytes_apart p g a copy (grind (arith, long));
}
  where
    copy : List ℕ
    copy = read_bytes p (slot_offset p s) (slot_size p s)

    copied : Memory
    copied = write_bytes p g copy

    long : length copy ≡ slot_size p s
    long = length-read_bytes p (slot_offset p s) (slot_size p s)

lowered : (free z : ℕ) → z ≤ free → free ≤ page_size → (free + 2 ^ 16 - z) % 2 ^ 16 ≡ free - z
lowered free z h k = omega arith

pack_one-IsPacked :
    (p : Memory) (s b free : ℕ)
    → s + 4 ≤ b
    → b ≤ slot_offset p s
    → slot_offset p s + slot_size p s ≤ free
    → free ≤ page_size
    → IsPacked p (pack_one p free s).0 s free (pack_one p free s).1
unfolding pack_one
pack_one-IsPacked p s b free h1 h2 h3 h4 =
    rw (lowered free (slot_size p s) (omega arith) h4)
      (elim (Bool-cases (slot_offset p s == (free - slot_size p s))) [
        | inl e ↦ rw e (stays p s free (free - slot_size p s) (omega arith) (ground arith))
        | inr e ↦ rw e (moves p s free (free - slot_size p s) b (omega arith) h1 (omega arith) h4)
      ])

-- The whole loop, from `free` down.
pub record ArePacked (p q : Memory) (b : ℕ) (ss : List ℕ) (free free' : ℕ) : Type 0 where
  pub room : free' + total p ss ≡ free
  pub above : b ≤ free'
  pub others :
      (a : ℕ) → ((s : ℕ) → In s ss → (a < s) ⊎ (s + 2 ≤ a)) → (a < free') ⊎ (free ≤ a) → q a ≡ p a
  pub inside :
      (s : ℕ) → In s ss → (free' ≤ slot_offset q s) × (slot_offset q s + slot_size q s ≤ free)
  pub sizes : (s : ℕ) → In s ss → slot_size q s ≡ slot_size p s
  pub bytes :
      (s : ℕ)
      → In s ss
      → read_bytes q (slot_offset q s) (slot_size q s)
        ≡ read_bytes p (slot_offset p s) (slot_size p s)
  pub apart :
      (s t : ℕ)
      → In s ss
      → In t ss
      → s ≢ t
      → (slot_offset q s + slot_size q s ≤ slot_offset q t)
        ⊎ (slot_offset q t + slot_size q t ≤ slot_offset q s)

-- One turn before the others.
module _ (p p' q : Memory) (b s : ℕ) (ss : List ℕ) (free free' last : ℕ)
    (first : IsPacked p p' s free free') (slots : AreSlots b (s ∷ ss))
    (down : Descends b p (s ∷ ss) free) where
  same_slot :
      (t : ℕ) → In t ss → (slot_offset p' t ≡ slot_offset p t) × (slot_size p' t ≡ slot_size p t)
  same_slot t i =
      let (lo, hi) = In-AreSlots b t ss slots.3 i in
      let side = slots.2 t i in
      (
        read_le_ext 2 p' p t (λ a x y.
            first.others a (grind arith) (inl (omega (arith, first.room, down.0, down.1)))),
        read_le_ext 2 p' p (t + 2) (λ a x y.
            first.others a (grind arith) (inl (omega (arith, first.room, down.0, down.1)))),
      )

  next_Descends : Descends b p' ss free'
  next_Descends =
      Descends-kept b p p' ss (slot_offset p s) free' (omega (arith, first.room, down.1)) same_slot
        down.2

  same_bytes :
      (t : ℕ)
      → In t ss
      → read_bytes p' (slot_offset p' t) (slot_size p' t)
        ≡ read_bytes p (slot_offset p t) (slot_size p t)
  same_bytes t i =
      let (o, z) = same_slot t i in
      let (lo, hi) = In-Descends b p t ss (slot_offset p s) down.2 i in
      rw (o, z)
        (read_bytes_ext p' p (slot_offset p t) (slot_size p t) (λ a x y.
          first.others a (inr (omega (arith, slots.1))) (inl (omega (arith, first.room, down.1)))))

  module _ (r : ArePacked p' q b ss free' last) where
    head_offset : slot_offset q s ≡ free'
    head_offset =
        read_le_ext 2 q p' s (λ a x y.
          r.others a (λ t i. grind (arith, slots.2 t i)) (inl (omega (arith, r.above, slots.1))))
        ∙ first.offset

    head_size : slot_size q s ≡ slot_size p s
    head_size =
        read_le_ext 2 q p' (s + 2) (λ a x y.
          r.others a (λ t i. grind (arith, slots.2 t i)) (inl (omega (arith, r.above, slots.1))))
        ∙ first.size

    head_bytes :
        read_bytes q (slot_offset q s) (slot_size q s)
        ≡ read_bytes p (slot_offset p s) (slot_size p s)
    head_bytes =
        rw (head_offset, head_size)
          (read_bytes_ext q p' free' (slot_size p s) (λ a x y.
              r.others a (λ t i. inr (omega (arith, In-AreSlots b t ss slots.3 i, r.above, r.room)))
                (inr x))
            ∙ first.bytes)

    packed_inside :
        (t : ℕ)
        → In t (s ∷ ss)
        → (last ≤ slot_offset q t) × (slot_offset q t + slot_size q t ≤ free)
    packed_inside t (inl e) =
        rw e (omega (arith, head_offset, r.room), omega (arith, head_offset, head_size, first.room))
    packed_inside t (inr i) = let (lo, hi) = r.inside t i in (lo, omega (arith, first.room))

    packed_sizes : (t : ℕ) → In t (s ∷ ss) → slot_size q t ≡ slot_size p t
    packed_sizes t (inl e) = rw e head_size
    packed_sizes t (inr i) = r.sizes t i ∙ (same_slot t i).1

    packed_bytes :
        (t : ℕ)
        → In t (s ∷ ss)
        → read_bytes q (slot_offset q t) (slot_size q t)
          ≡ read_bytes p (slot_offset p t) (slot_size p t)
    packed_bytes t (inl e) = rw e head_bytes
    packed_bytes t (inr i) = r.bytes t i ∙ same_bytes t i

    packed_apart :
        (t u : ℕ)
        → In t (s ∷ ss)
        → In u (s ∷ ss)
        → t ≢ u
        → (slot_offset q t + slot_size q t ≤ slot_offset q u)
          ⊎ (slot_offset q u + slot_size q u ≤ slot_offset q t)
    packed_apart t u (inl e) (inl f) d = absurd (d (e ∙ sym f))
    packed_apart t u (inl e) (inr j) d = rw e (inr (omega (arith, head_offset, (r.inside u j).1)))
    packed_apart t u (inr i) (inl f) d = rw f (inl (omega (arith, head_offset, (r.inside t i).1)))
    packed_apart t u (inr i) (inr j) d = r.apart t u i j d

    then_ArePacked : ArePacked p q b (s ∷ ss) free last
    then_ArePacked = record {
      room = omega (arith, r.room, first.room, total-kept p p' ss (λ t i. (same_slot t i).1));
      above = r.above;
      others = λ a x y.
          r.others a (λ t i. x t (inr i)) (grind (arith, first.room))
          ∙ first.others a (x s (inl refl)) (grind (arith, r.room));
      inside = packed_inside;
      sizes = packed_sizes;
      bytes = packed_bytes;
      apart = packed_apart;
    }

-- Records that lie one below the other are packed one below the other from `free` down: each keeps
-- its bytes and its size, no two overlap, and nothing else changes but the slots' offsets and the
-- room under `free`.
pub pack_all-ArePacked :
    (ss : List ℕ) (p : Memory) (b free : ℕ)
    → AreSlots b ss
    → Descends b p ss free
    → b ≤ free
    → free ≤ page_size
    → ArePacked p (pack_all ss p free).0 b ss free (pack_all ss p free).1
unfolding pack_all
pack_all-ArePacked [] p b free a d l h = record {
  room = omega arith;
  above = l;
  others = λ a x y. refl;
  inside = λ s i. elim i [ ];
  sizes = λ s i. elim i [ ];
  bytes = λ s i. elim i [ ];
  apart = λ s t i. elim i [ ];
}
pack_all-ArePacked (s ∷ ss) p b free a d l h =
    let one = pack_one-IsPacked p s b free a.1 d.0 d.1 h in
    let p' = (pack_one p free s).0 in
    let free' = (pack_one p free s).1 in
    then_ArePacked p p' (pack_all ss p' free').0 b s ss free free' (pack_all ss p' free').1 one a d
      (pack_all-ArePacked ss p' b free' a.3 (next_Descends p p' p' b s ss free free' free' one a d)
        (omega (arith, one.room, d.0, d.1)) (omega (arith, one.room)))
