-- ===== src/Memory/Laws.antt =====
-- Reading back what was written, at the same place and apart from it.
use native.Mathlib.Nat.{pow-suc}
use database_internals.Prelude.{
  ℕ, zero, suc, ◌+◌, ◌/◌, ◌^◌, ◌≤◌, ◌<◌, ◌≡◌, refl, ◌⊎◌, inl, inr, List, [], ◌∷◌, ◌++◌, length,
  update, arith, ap, ap₂, ◌∙◌,
}
use database_internals.Memory.{Memory, write_bytes, read_bytes, to_le, of_le, write_le, read_le}

pub write_bytes_apart :
    (m : Memory) (o a : ℕ) (bs : List ℕ)
    → (a < o) ⊎ (o + length bs ≤ a)
    → write_bytes m o bs a ≡ m a
unfolding write_bytes
write_bytes_apart m o a [] h = refl
write_bytes_apart m o a (b ∷ bs) h = ground (arith, write_bytes_apart (update m o b) (suc o) a bs)

pub read_bytes_ext :
    (m n : Memory) (o k : ℕ)
    → ((a : ℕ) → o ≤ a → a < o + k → m a ≡ n a)
    → read_bytes m o k ≡ read_bytes n o k
unfolding read_bytes
read_bytes_ext m n o zero h = refl
read_bytes_ext m n o (suc k) h =
    ap₂ ◌∷◌ (h o (omega arith) (omega arith))
      (read_bytes_ext m n (suc o) k (λ a p q. h a (omega arith) (omega arith)))

-- Reading elsewhere does not see the write.
pub read_bytes-write_bytes_apart :
    (m : Memory) (o p k : ℕ) (bs : List ℕ)
    → (p + k ≤ o) ⊎ (o + length bs ≤ p)
    → read_bytes (write_bytes m o bs) p k ≡ read_bytes m p k
read_bytes-write_bytes_apart m o p k bs h =
    read_bytes_ext _ m p k (λ a x y. write_bytes_apart m o a bs (side a x y))
  where
    side : (a : ℕ) → p ≤ a → a < p + k → (a < o) ⊎ (o + length bs ≤ a)
    side a x y = grind arith

pub read_bytes-write_bytes :
    (m : Memory) (o : ℕ) (bs : List ℕ) → read_bytes (write_bytes m o bs) o (length bs) ≡ bs
unfolding write_bytes read_bytes
read_bytes-write_bytes m o [] = refl
read_bytes-write_bytes m o (b ∷ bs) =
    ap₂ ◌∷◌ (write_bytes_apart (update m o b) (suc o) o bs (inl (omega arith)) ∙ ground arith)
      (read_bytes-write_bytes (update m o b) (suc o) bs)

pub length-read_bytes : (m : Memory) (o k : ℕ) → length (read_bytes m o k) ≡ k
unfolding read_bytes
length-read_bytes m o zero = refl
length-read_bytes m o (suc k) = ap suc (length-read_bytes m (suc o) k)

shift : (j k : ℕ) → suc j + k ≡ suc (j + k)
shift j k = omega arith

pub read_bytes-add :
    (m : Memory) (o j k : ℕ) → read_bytes m o (j + k) ≡ read_bytes m o j ++ read_bytes m (o + j) k
unfolding read_bytes
read_bytes-add m o zero k = ap₂ (read_bytes m) {x = o} (omega arith) (omega arith)
read_bytes-add m o (suc j) k = rw (shift j k) (
    ap (◌∷◌ (m o)) (
      read_bytes-add m (suc o) j k
      ∙ ap (λ a. read_bytes m (suc o) j ++ read_bytes m a k) (omega arith)))

pub write_bytes-append :
    (m : Memory) (o : ℕ) (xs ys : List ℕ)
    → write_bytes m o (xs ++ ys) ≡ write_bytes (write_bytes m o xs) (o + length xs) ys
unfolding write_bytes
write_bytes-append m o [] ys = ap (λ k. write_bytes m k ys) (omega arith)
write_bytes-append m o (x ∷ xs) ys =
    write_bytes-append (update m o x) (suc o) xs ys
    ∙ ap (λ k. write_bytes (write_bytes (update m o x) (suc o) xs) k ys) (omega arith)

pub length-to_le : (w v : ℕ) → length (to_le w v) ≡ w
unfolding to_le
length-to_le zero v = refl
length-to_le (suc w) v = ap suc (length-to_le w (v / 256))

-- A value that fits comes back.
pub of_le-to_le : (w v : ℕ) → v < 256 ^ w → of_le (to_le w v) ≡ v
unfolding of_le to_le
of_le-to_le zero v h = omega arith
of_le-to_le (suc w) v h = omega (arith, of_le-to_le w (v / 256) (omega (arith, pow-suc 256 w)))

pub read_le-write_le :
    (w : ℕ) (m : Memory) (o v : ℕ) → v < 256 ^ w → read_le w (write_le w m o v) o ≡ v
unfolding read_le write_le
read_le-write_le w m o v h =
    ap of_le (rw (length-to_le w v) at (read_bytes-write_bytes m o (to_le w v))) ∙ of_le-to_le w v h

pub read_le-write_le_apart :
    (w k : ℕ) (m : Memory) (o p v : ℕ)
    → (p + w ≤ o) ⊎ (o + k ≤ p)
    → read_le w (write_le k m o v) p ≡ read_le w m p
unfolding read_le write_le
read_le-write_le_apart w k m o p v h =
    ap of_le (read_bytes-write_bytes_apart m o p w (to_le k v) (rw (length-to_le k v) h))

-- Reading the parts of one long write.
pub read_bytes-write_bytes_left :
    (m : Memory) (o : ℕ) (xs ys : List ℕ)
    → read_bytes (write_bytes m o (xs ++ ys)) o (length xs) ≡ xs
read_bytes-write_bytes_left m o xs ys = rw (write_bytes-append m o xs ys) (
    read_bytes-write_bytes_apart (write_bytes m o xs) (o + length xs) o (length xs) ys
      (inl (omega arith))
    ∙ read_bytes-write_bytes m o xs)

pub read_bytes-write_bytes_right :
    (m : Memory) (o : ℕ) (xs ys : List ℕ)
    → read_bytes (write_bytes m o (xs ++ ys)) (o + length xs) (length ys) ≡ ys
read_bytes-write_bytes_right m o xs ys =
    rw (write_bytes-append m o xs ys)
      (read_bytes-write_bytes (write_bytes m o xs) (o + length xs) ys)

-- Writing over a middle part changes that part and no other.
pub read_bytes-patch :
    (m : Memory) (o : ℕ) (xs old new ys : List ℕ)
    → length old ≡ length new
    → read_bytes
        (write_bytes (write_bytes m o (xs ++ (old ++ ys))) (o + length xs) new)
        o
        (length xs + (length new + length ys))
      ≡ xs ++ (new ++ ys)
read_bytes-patch m o xs old new ys e =
    read_bytes-add patched o (length xs) (length new + length ys)
    ∙ ap₂ ◌++◌
        (read_bytes-write_bytes_apart whole (o + length xs) o (length xs) new (inl (omega arith))
          ∙ read_bytes-write_bytes_left m o xs (old ++ ys))
        (read_bytes-add patched (o + length xs) (length new) (length ys)
          ∙ ap₂ ◌++◌ (read_bytes-write_bytes whole (o + length xs) new) (
              read_bytes-write_bytes_apart whole (o + length xs) (o + length xs + length new)
                (length ys) new (inr (omega arith))
              ∙ behind))
  where
    whole : Memory
    whole = write_bytes m o (xs ++ (old ++ ys))

    patched : Memory
    patched = write_bytes whole (o + length xs) new

    behind : read_bytes whole (o + length xs + length new) (length ys) ≡ ys
    behind =
        rw (← e, write_bytes-append m o xs (old ++ ys))
          (read_bytes-write_bytes_right (write_bytes m o xs) (o + length xs) old ys)

pub write_le_apart :
    (w : ℕ) (m : Memory) (o a v : ℕ) → (a < o) ⊎ (o + w ≤ a) → write_le w m o v a ≡ m a
unfolding write_le
write_le_apart w m o a v h = write_bytes_apart m o a (to_le w v) (rw (length-to_le w v) h)

pub read_le-write_bytes_apart :
    (w : ℕ) (m : Memory) (o p : ℕ) (bs : List ℕ)
    → (p + w ≤ o) ⊎ (o + length bs ≤ p)
    → read_le w (write_bytes m o bs) p ≡ read_le w m p
unfolding read_le
read_le-write_bytes_apart w m o p bs h = ap of_le (read_bytes-write_bytes_apart m o p w bs h)

pub read_bytes-write_le_apart :
    (k : ℕ) (m : Memory) (o p n v : ℕ)
    → (p + n ≤ o) ⊎ (o + k ≤ p)
    → read_bytes (write_le k m o v) p n ≡ read_bytes m p n
unfolding write_le
read_bytes-write_le_apart k m o p n v h =
    read_bytes-write_bytes_apart m o p n (to_le k v) (rw (length-to_le k v) h)

pub read_le_ext :
    (w : ℕ) (m n : Memory) (o : ℕ)
    → ((a : ℕ) → o ≤ a → a < o + w → m a ≡ n a)
    → read_le w m o ≡ read_le w n o
unfolding read_le
read_le_ext w m n o h = ap of_le (read_bytes_ext m n o w h)

-- Bytes read at two places of two memories that agree there.
pub read_bytes_moved :
    (m n : Memory) (o p k : ℕ)
    → ((j : ℕ) → j < k → m (o + j) ≡ n (p + j))
    → read_bytes m o k ≡ read_bytes n p k
unfolding read_bytes
read_bytes_moved m n o p zero h = refl
read_bytes_moved m n o p (suc k) h = ap₂ ◌∷◌ first (read_bytes_moved m n (suc o) (suc p) k rest)
  where
    first : m o ≡ n p
    first = grind (arith, h 0)

    rest : (j : ℕ) → j < k → m (suc o + j) ≡ n (suc p + j)
    rest j x = grind (arith, h (suc j))

pub read_le_moved :
    (w : ℕ) (m n : Memory) (o p : ℕ)
    → ((j : ℕ) → j < w → m (o + j) ≡ n (p + j))
    → read_le w m o ≡ read_le w n p
unfolding read_le
read_le_moved w m n o p h = ap of_le (read_bytes_moved m n o p w h)

-- A byte of what was written.
pub write_bytes-read_bytes :
    (m n : Memory) (o p k j : ℕ) → j < k → write_bytes m o (read_bytes n p k) (o + j) ≡ n (p + j)
unfolding write_bytes read_bytes
write_bytes-read_bytes m n o p zero j h = absurd (omega arith)
write_bytes-read_bytes m n o p (suc k) zero h =
    grind (arith, write_bytes_apart (update m o (n p)) (suc o) o (read_bytes n (suc p) k))
write_bytes-read_bytes m n o p (suc k) (suc j) h =
    grind (arith, write_bytes-read_bytes (update m o (n p)) n (suc o) (suc p) k j)
