-- ===== src/Buffer/Arc/Scan.antt =====
-- `EvictFrom`, the scan inside `ArcReplacer::Evict`.
use database_internals.Prelude.{
  ℕ, ◌+◌, ◌<◌, ◌≡◌, refl, ◌++◌, true, Option, none, some, List, [], ◌∷◌, if◌then◌else◌, length,
  count, ok, arith, ◌==◌, is_ok, >>=-eq-ok, ◌≢◌, length-append,
}
use database_internals.Buffer.Arc.{FrameStatus, evict_from, probe}
use database_internals.Buffer.Arc.Invariant.{evictable, evictables}

-- The scan took `x` out of the list and found nothing evictable behind it.
pub record IsCut (alive : ℕ → Option FrameStatus) (xs : List ℕ) (x : ℕ) (rest : List ℕ)
    : Type 0 where
  pub before : List ℕ
  pub behind : List ℕ
  pub whole : xs ≡ before ++ x ∷ behind
  pub left : rest ≡ before ++ behind
  pub flagged : evictable (alive x) ≡ 1
  pub last : evictables alive behind ≡ 0

pub evict_from-none :
    (alive : ℕ → Option FrameStatus) (xs : List ℕ)
    → evict_from alive xs ≡ ok none
    → evictables alive xs ≡ 0
unfolding evict_from probe
evict_from-none alive [] h = refl
evict_from-none alive (x ∷ xs) h = ground (arith, evict_from-none alive xs)

probe-IsCut :
    (alive : ℕ → Option FrameStatus) (y : ℕ) (ys : List ℕ) (x : ℕ) (rest : List ℕ)
    (o : Option (ℕ × List ℕ))
    → ((v : ℕ) (rs : List ℕ) → o ≡ some (v, rs) → IsCut alive ys v rs)
    → (o ≡ none → evictables alive ys ≡ 0)
    → probe y ys (alive y) o ≡ ok (some (x, rest))
    → IsCut alive (y ∷ ys) x rest
unfolding probe
probe-IsCut alive y ys x rest none found empty h = record {
  before = [];
  behind = ys;
  whole = ground arith;
  left = ground arith;
  flagged = ground arith;
  last = empty refl;
}
probe-IsCut alive y ys x rest (some (v, rs)) found empty h =
    let c = found v rs refl in
    record {
      before = y ∷ c.before;
      behind = c.behind;
      whole = ground arith;
      left = ground arith;
      flagged = ground arith;
      last = c.last;
    }

pub evict_from-IsCut :
    (alive : ℕ → Option FrameStatus) (xs : List ℕ) (x : ℕ) (rest : List ℕ)
    → evict_from alive xs ≡ ok (some (x, rest))
    → IsCut alive xs x rest
unfolding evict_from
evict_from-IsCut alive [] x rest h = cc
evict_from-IsCut alive (y ∷ ys) x rest h =
    let (o, e, h') = >>=-eq-ok (evict_from alive ys) (probe y ys (alive y)) h in
    probe-IsCut alive y ys x rest o (λ v rs eo. evict_from-IsCut alive ys v rs (ground arith))
      (λ eo. evict_from-none alive ys (ground arith)) h'

pub evict_from-returns :
    (alive : ℕ → Option FrameStatus) (xs : List ℕ)
    → ((f : ℕ) → 0 < count f xs → alive f ≢ none)
    → is_ok (evict_from alive xs) ≡ true
unfolding evict_from probe
evict_from-returns alive [] h = refl
evict_from-returns alive (x ∷ xs) h =
    ground (arith, evict_from-returns alive xs (λ f n. h f (omega arith)), h x)

count-append : (g : ℕ) (xs ys : List ℕ) → count g (xs ++ ys) ≡ count g xs + count g ys
count-append g [] ys = omega arith
count-append g (x ∷ xs) ys = omega (arith, count-append g xs ys)

evictables-append :
    (alive : ℕ → Option FrameStatus) (xs ys : List ℕ)
    → evictables alive (xs ++ ys) ≡ evictables alive xs + evictables alive ys
evictables-append alive [] ys = omega arith
evictables-append alive (x ∷ xs) ys = omega (arith, evictables-append alive xs ys)

-- The numbers of the list after the cut.
module _ {alive : ℕ → Option FrameStatus} {xs : List ℕ} {x : ℕ} {rest : List ℕ}
    (c : IsCut alive xs x rest) where
  pub length-cut : length rest + 1 ≡ length xs
  length-cut =
      rw (c.whole, c.left)
        (omega (arith, length-append c.before (x ∷ c.behind), length-append c.before c.behind))

  pub count-cut : (g : ℕ) → count g rest + (if x == g then 1 else 0) ≡ count g xs
  count-cut g =
      rw (c.whole, c.left)
        (omega (arith, count-append g c.before (x ∷ c.behind), count-append g c.before c.behind))

  pub evictables-cut : evictables alive rest + 1 ≡ evictables alive xs
  evictables-cut =
      rw (c.whole, c.left)
        (omega (
          arith,
          c.flagged,
          evictables-append alive c.before (x ∷ c.behind),
          evictables-append alive c.before c.behind,
        ))
