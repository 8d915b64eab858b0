-- ===== src/Buffer/Pool/Tables.antt =====
-- `page_table_` and `free_frames_` of `BufferPoolManager`: how many frames they account for, and
-- what they have to do with the replacer.
use database_internals.Prelude.{
  ℕ, ◌+◌, ◌==◌, ◌≡◌, ◌≢◌, ◌≤◌, ◌<◌, refl, sym, ◌∙◌, inl, inr, none, some, List, [], ◌∷◌, ◌++◌,
  length, count, update, arith, Bool-cases, if◌then◌else◌, length-append,
}
use database_internals.Buffer.Arc.{ArcReplacer}
use database_internals.Buffer.Arc.Pages.{page_of, HasOwnGhosts, Evicts}
use database_internals.Buffer.Pool.{PageTable, find, erase_page, link}

-- How many entries a page has.
abbrev pub entries : ℕ → PageTable → ℕ
entries p [] = 0
entries p ((q, f) ∷ t) = (if q == p then 1 else 0) + entries p t

pub find-erase_page :
    (p q : ℕ) (t : PageTable) → find q (erase_page p t) ≡ (if q == p then none else find q t)
find-erase_page p q [] = ground arith
find-erase_page p q ((s, f) ∷ t) = ground (arith, find-erase_page p q t)

length-erase_page : (p : ℕ) (t : PageTable) → length (erase_page p t) + entries p t ≡ length t
length-erase_page p [] = refl
length-erase_page p ((s, f) ∷ t) = ground (arith, length-erase_page p t)

entries-erase_page :
    (p q : ℕ) (t : PageTable) → entries q (erase_page p t) ≡ (if q == p then 0 else entries q t)
entries-erase_page p q [] = ground arith
entries-erase_page p q ((s, f) ∷ t) = ground (arith, entries-erase_page p q t)

entries-find : (p : ℕ) (t : PageTable) → find p t ≢ none → 0 < entries p t
entries-find p [] h = absurd (h refl)
entries-find p ((s, f) ∷ t) h = elim (Bool-cases (s == p)) [
  | inl y ↦ ground arith
  | inr n ↦ ground (arith, entries-find p t (λ e. h (ground arith)))
]

entries-none : (p : ℕ) (t : PageTable) → find p t ≡ none → entries p t ≡ 0
entries-none p [] h = refl
entries-none p ((s, f) ∷ t) h = ground (arith, entries-none p t)

pub count-append : (a : ℕ) (xs ys : List ℕ) → count a (xs ++ ys) ≡ count a xs + count a ys
count-append a [] ys = omega arith
count-append a (x ∷ xs) ys = ground (arith, count-append a xs ys)

-- Every frame is free or holds one page, whose entry leads to it; and the replacer knows it by that
-- page.
pub record Links (n : ℕ) (t : PageTable) (free : List ℕ) (r : ArcReplacer) : Type 0 where
  pub sized : length t + length free ≡ n
  pub own : HasOwnGhosts r
  pub once : (p : ℕ) → entries p t ≤ 1
  pub held : (p f : ℕ) → find p t ≡ some f → (page_of r f ≡ some p) × (f < n)
  pub found : (p f : ℕ) → page_of r f ≡ some p → find p t ≡ some f
  pub spare : (f : ℕ) → 0 < count f free → (page_of r f ≡ none) × (f < n)
  pub apart : (f : ℕ) → count f free ≤ 1

-- The same, but for one frame that is taken out.
pub record Takes (n : ℕ) (t : PageTable) (free : List ℕ) (r : ArcReplacer) (g : ℕ) : Type 0 where
  pub sized : length t + length free + 1 ≡ n
  pub own : HasOwnGhosts r
  pub once : (p : ℕ) → entries p t ≤ 1
  pub held : (p f : ℕ) → find p t ≡ some f → (page_of r f ≡ some p) × (f < n)
  pub found : (p f : ℕ) → page_of r f ≡ some p → find p t ≡ some f
  pub spare : (f : ℕ) → 0 < count f free → (page_of r f ≡ none) × (f < n)
  pub apart : (f : ℕ) → count f free ≤ 1
  pub out : (page_of r g ≡ none) × (g < n) × (count g free ≡ 0)

module _ {n : ℕ} {t : PageTable} {free : List ℕ} {r : ArcReplacer} where
  pub Links-same :
      (r' : ArcReplacer)
      → Links n t free r
      → ((g : ℕ) → page_of r' g ≡ page_of r g)
      → HasOwnGhosts r'
      → Links n t free r'
  Links-same r' v same own = record {
    sized = v.sized;
    own = own;
    once = v.once;
    held = λ p f e. (same f ∙ (v.held p f e).0, (v.held p f e).1);
    found = λ p f e. v.found p f (sym (same f) ∙ e);
    spare = λ f k. (same f ∙ (v.spare f k).0, (v.spare f k).1);
    apart = v.apart;
  }

  pub Takes-same :
      (g : ℕ) (r' : ArcReplacer)
      → Takes n t free r g
      → ((h : ℕ) → page_of r' h ≡ page_of r h)
      → HasOwnGhosts r'
      → Takes n t free r' g
  Takes-same g r' v same own = record {
    sized = v.sized;
    own = own;
    once = v.once;
    held = λ p f e. (same f ∙ (v.held p f e).0, (v.held p f e).1);
    found = λ p f e. v.found p f (sym (same f) ∙ e);
    spare = λ f k. (same f ∙ (v.spare f k).0, (v.spare f k).1);
    apart = v.apart;
    out = (same g ∙ v.out.0, v.out.1, v.out.2);
  }

  -- Linking a page to the frame that is out.
  pub Links-link :
      (p g : ℕ) (r' : ArcReplacer)
      → Takes n t free r g
      → find p t ≡ none
      → ((h : ℕ) → page_of r' h ≡ update (page_of r) g (some p) h)
      → HasOwnGhosts r'
      → Links n (link p g t) free r'
  Links-link p g r' v absent holds own = record {
    sized = ground (arith, length-erase_page p t, entries-none p t absent, v.sized);
    own = own;
    once = λ q. ground (arith, entries-erase_page p q t, v.once q);
    held = λ q f e. ground (arith, find-erase_page p q t, v.held q f, holds f, v.out);
    found = λ q f e. ground (arith, find-erase_page p q t, v.found q f, holds f, v.out);
    spare = λ f k. ground (arith, v.spare f k, holds f, v.out);
    apart = v.apart;
  }

  -- Taking the page's frame from it.
  pub Takes-evict :
      (p g : ℕ) (r' : ArcReplacer)
      → Links n t free r
      → Evicts r r' p g
      → Takes n (erase_page p t) free r' g
  Takes-evict p g r' v e = record {
    sized =
        ground
          (arith, length-erase_page p t, v.once p, v.found p g e.held, entries-find p t, v.sized);
    own = e.own;
    once = λ q. ground (arith, entries-erase_page p q t, v.once q);
    held = λ q f k.
        ground (arith, find-erase_page p q t, v.held q f, v.found p g e.held, e.held, e.others f);
    found = λ q f k.
        ground (arith, find-erase_page p q t, v.found q f, v.found p g e.held, e.held, e.others f);
    spare = λ f k. ground (arith, v.spare f k, e.others f);
    apart = v.apart;
    out = (
      ground (arith, e.others g),
      ground (arith, v.held p g (v.found p g e.held)),
      ground (arith, v.spare g, e.held),
    );
  }

-- Taking the first free frame.
pub Takes-free :
    (n g : ℕ) (t : PageTable) (free : List ℕ) (r : ArcReplacer)
    → Links n t (g ∷ free) r
    → Takes n t free r g
Takes-free n g t free r v = record {
  sized = ground (arith, v.sized);
  own = v.own;
  once = v.once;
  held = v.held;
  found = v.found;
  spare = λ f k. ground (arith, v.spare f);
  apart = λ f. ground (arith, v.apart f);
  out = (ground (arith, v.spare g), ground (arith, v.spare g), ground (arith, v.apart g));
}

-- Putting the frame back at the end of the free ones.
pub Links-free :
    (n g : ℕ) (t : PageTable) (free : List ℕ) (r : ArcReplacer)
    → Takes n t free r g
    → Links n t (free ++ g ∷ []) r
Links-free n g t free r v = record {
  sized = ground (arith, v.sized, length-append free (g ∷ []));
  own = v.own;
  once = v.once;
  held = v.held;
  found = v.found;
  spare = λ f k. ground (arith, v.spare f, v.out, count-append f free (g ∷ []));
  apart = λ f. ground (arith, v.apart f, v.out, count-append f free (g ∷ []));
}
