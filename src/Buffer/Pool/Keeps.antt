-- ===== src/Buffer/Pool/Keeps.antt =====
-- What the steps inside the operations of `BufferPoolManager` leave of its bookkeeping.
use database_internals.Prelude.{
  ℕ, ◌==◌, ◌≡◌, refl, ◌∙◌, inl, inr, Bool, true, false, ok, arith, Bool-cases, >>=-eq-ok,
}
use database_internals.Buffer.Arc.{set_evictable}
use database_internals.Buffer.Arc.Pages.{page_of, HasOwnGhosts, set_evictable-page_of}
use database_internals.Buffer.Frames.{pin, unpin, set_dirty}
use database_internals.Buffer.Pool.{BufferPoolManager, frame_at, mark, release, clean_and_pin}
use database_internals.Buffer.Pool.Tables.{Links, Links-same}

abbrev pub IsLinked : BufferPoolManager → Type 0
IsLinked b = Links b.num_frames b.page_table b.free_frames b.shared.replacer

-- What the steps inside an operation leave of the bookkeeping.
pub record Keeps (b b' : BufferPoolManager) : Type 0 where
  pub frames : b'.num_frames ≡ b.num_frames
  pub table : b'.page_table ≡ b.page_table
  pub free : b'.free_frames ≡ b.free_frames
  pub pages : (g : ℕ) → page_of b'.shared.replacer g ≡ page_of b.shared.replacer g
  pub own : HasOwnGhosts b.shared.replacer → HasOwnGhosts b'.shared.replacer

pub Keeps-trans : (b c d : BufferPoolManager) → Keeps b c → Keeps c d → Keeps b d
Keeps-trans b c d x y = record {
  frames = y.frames ∙ x.frames;
  table = y.table ∙ x.table;
  free = y.free ∙ x.free;
  pages = λ g. y.pages g ∙ x.pages g;
  own = λ o. y.own (x.own o);
}

pub Keeps-refl : (b : BufferPoolManager) → Keeps b b
Keeps-refl b = record { frames = refl; table = refl; free = refl; pages = λ g. refl; own = λ o. o }

pub IsLinked-Keeps : (b b' : BufferPoolManager) → Keeps b b' → IsLinked b → IsLinked b'
IsLinked-Keeps b b' k v =
    rw (k.frames, k.table, k.free) (Links-same b'.shared.replacer v k.pages (k.own v.own))

pub mark-Keeps :
    (b b' : BufferPoolManager) (f : ℕ) (e : Bool)
    → HasOwnGhosts b.shared.replacer
    → mark b f e ≡ ok b'
    → Keeps b b'
unfolding mark
mark-Keeps b b' f e own h =
    let (r, er, e') = >>=-eq-ok (set_evictable b.shared.replacer f e) _ h in
    let m = set_evictable-page_of b.shared.replacer r f e own er in
    record {
      frames = ground arith;
      table = ground arith;
      free = ground arith;
      pages = λ g. ground (arith, m.0 g);
      own = λ o q fs k. ground (arith, m.1 q fs);
    }

pub release-Keeps :
    (b b' : BufferPoolManager) (f : ℕ)
    → HasOwnGhosts b.shared.replacer
    → release b f ≡ ok b'
    → Keeps b b'
unfolding release
release-Keeps b b' f own h = elim (Bool-cases (((unpin b.shared f).frames f).pin_count == 0)) [
  | inl y ↦
      let k = mark-Keeps (record b { shared = unpin b.shared f }) b' f true own (rw y at h) in
      record { frames = k.frames; table = k.table; free = k.free; pages = k.pages; own = k.own }
  | inr n ↦ record {
    frames = ground arith;
    table = ground arith;
    free = ground arith;
    pages = λ g. ground arith;
    own = λ o q fs k. ground (arith, o q fs);
  }
]

pub clean_and_pin-Keeps :
    (b b' : BufferPoolManager) (f : ℕ)
    → HasOwnGhosts b.shared.replacer
    → clean_and_pin b f ≡ ok b'
    → Keeps b b'
unfolding clean_and_pin
clean_and_pin-Keeps b b' f own h =
    let (fh, ef, h') = >>=-eq-ok (frame_at b f) _ h in
    let k =
      mark-Keeps (record b { shared = pin (set_dirty b.shared f false) f }) b' f false own h' in
    record { frames = k.frames; table = k.table; free = k.free; pages = k.pages; own = k.own }
