-- ===== src/Types/Tuple/RoundTrip.antt =====
-- A tuple read back from its bytes.
use native.Mathlib.Nat.{mod-eq_of_lt}
use database_internals.Prelude.{
  ℕ, ◌+◌, ◌^◌, ◌≡◌, ◌<◌, ◌≤◌, ◌⊎◌, inl, inr, ◌∙◌, ap, refl, List, [], ◌∷◌, arith, length, Bool,
  true, false, Outcome, ok, ◌>>=◌,
}
use database_internals.Memory.{Memory, write_bytes, read_bytes, write_le, read_le}
use database_internals.Memory.Laws.{
  read_le-write_le, read_le-write_bytes_apart, read_bytes-write_bytes, write_bytes_apart,
  write_le_apart, read_le_ext, read_bytes_ext,
}
use database_internals.Types.Value.{
  Value, num, fp, bool, text, FloatFormat, serialize, TypeId, numeric, floating, boolean, varchar,
  invalid,
}
use database_internals.Types.Value.RoundTrip.{Fits}
use database_internals.Types.Value.Frames.{
  text_size, serialized_size-Fits, serialize_apart, deserialize-written,
}
use database_internals.Types.Column.{Column, is_variable_length, make_schema, sum_lengths}
use database_internals.Types.Tuple.{
  store_text, store_field, store_fields, serialize_tuple, Loaded, whole, freed, load_field,
  load_fields, deserialize_tuple,
}

abbrev IsText : Value → Type 0
IsText (text bytes owns) = length bytes < 2 ^ 16
IsText _ = ⊥

abbrev Conforms : FloatFormat → Column → Value → Type 0
Conforms ff c v =
    ((is_variable_length c ≡ true) × (c.len ≡ 2) × IsText v)
    ⊎ ((is_variable_length c ≡ false) × (c.len < 256) × Fits ff c.type_id c.len v)

abbrev pub AllConform : FloatFormat → List Column → List Value → Type 0
AllConform ff [] [] = Unit {0}
AllConform ff (c ∷ cs) (v ∷ vs) = Conforms ff c v × AllConform ff cs vs
AllConform ff _ _ = ⊥

-- What is left of a value that is written and read: of a string, its length.
abbrev pub left_of : Value → Loaded
left_of (text bytes owns) = freed (length bytes)
left_of (num v w) = whole (num v w)
left_of (fp d w) = whole (fp d w)
left_of (bool b) = whole (bool b)

abbrev pub all_left : List Value → List Loaded
all_left [] = []
all_left (v ∷ vs) = left_of v ∷ all_left vs

abbrev pub texts_size : List Value → ℕ
texts_size [] = 0
texts_size (v ∷ vs) = text_size v + texts_size vs

sum_lengths-cons : (c : Column) (cs : List Column) → sum_lengths (c ∷ cs) ≡ c.len + sum_lengths cs
unfolding sum_lengths
sum_lengths-cons c cs = refl

module _ (ff : FloatFormat) where
  -- What one column's part of the loop leaves: the cursors, and every byte but its own.
  record Stores (c : Column) (v : Value) (m : Memory) (f w : ℕ) : Type 0 where
    memory : Memory
    result : store_field ff c v m f w ≡ ok (memory, (f + c.len, w + text_size v))
    frame : (a : ℕ) → (a < f) ⊎ (f + c.len ≤ a) → (a < w) ⊎ (w + text_size v ≤ a) → memory a ≡ m a
    reread :
        (m' : Memory)
        → ((a : ℕ) → f ≤ a → a < f + c.len → m' a ≡ memory a)
        → ((a : ℕ) → w ≤ a → a < w + text_size v → m' a ≡ memory a)
        → load_field ff c m' f w ≡ ok (left_of v, (f + c.len, w + text_size v))

  text-Stores :
      (c : Column) (bytes : List ℕ) (owns : Bool) (m : Memory) (f w : ℕ)
      → is_variable_length c ≡ true
      → c.len ≡ 2
      → length bytes < 2 ^ 16
      → f + c.len ≤ w
      → Stores c (text bytes owns) m f w
  unfolding store_field store_text load_field
  text-Stores c bytes owns m f w var two short apart = record {
    memory = write_bytes (write_le 2 m f (length bytes)) w bytes;
    result = ground (arith, var, two);
    frame = λ a x y. ground (
      arith,
      write_bytes_apart (write_le 2 m f (length bytes)) w a bytes,
      write_le_apart 2 m f a (length bytes),
    );
    reread = λ m' x y.
        ground (arith, var, two, here m' x, ap (λ k. read_bytes m' w k) (here m' x), there m' y);
  }
    where
      here :
          (m' : Memory)
          → ((a : ℕ)
              → f ≤ a
              → a < f + c.len
              → m' a ≡ write_bytes (write_le 2 m f (length bytes)) w bytes a)
          → read_le 2 m' f ≡ length bytes
      here m' x =
          read_le_ext 2 m' _ f (λ a p q. x a p (omega arith))
          ∙ read_le-write_bytes_apart 2 (write_le 2 m f (length bytes)) w f bytes
              (inl (omega arith))
          ∙ read_le-write_le 2 m f (length bytes) (omega arith)

      there :
          (m' : Memory)
          → ((a : ℕ)
              → w ≤ a
              → a < w + length bytes
              → m' a ≡ write_bytes (write_le 2 m f (length bytes)) w bytes a)
          → read_bytes m' w (length bytes) ≡ bytes
      there m' y =
          read_bytes_ext m' _ w (length bytes) y
          ∙ read_bytes-write_bytes (write_le 2 m f (length bytes)) w bytes

  left_of-whole : (t : TypeId) (width : ℕ) (v : Value) → Fits ff t width v → left_of v ≡ whole v
  left_of-whole t width (num v w) f = refl
  left_of-whole t width (fp d w) f = refl
  left_of-whole t width (bool b) f = refl
  left_of-whole numeric width (text b x) f = elim f [ ]
  left_of-whole floating width (text b x) f = elim f [ ]
  left_of-whole boolean width (text b x) f = elim f [ ]
  left_of-whole varchar width (text b x) f = elim f [ ]
  left_of-whole invalid width (text b x) f = elim f [ ]

  fixed-Stores :
      (c : Column) (v : Value) (m : Memory) (f w : ℕ)
      → is_variable_length c ≡ false
      → c.len < 256
      → Fits ff c.type_id c.len v
      → Stores c v m f w
  unfolding store_field load_field
  fixed-Stores c v m f w fixed short fits =
      let s = serialized_size-Fits ff c.type_id c.len v fits in
      record {
        memory = serialize ff v m f;
        result =
            rw (fixed, s.0, s.1) (ap (λ k. ok (serialize ff v m f, (f + c.len, k))) (omega arith));
        frame = λ a x y. serialize_apart ff c.type_id c.len v m f a fits x;
        reread = λ m' x y.
            rw
              (
                fixed,
                mod-eq_of_lt short,
                deserialize-written ff c.type_id c.len v m m' f fits x,
                s.0,
                s.1,
                left_of-whole c.type_id c.len v fits,
              )
              (ap (λ k. ok (whole v, (f + c.len, k))) (omega arith));
      }

  stores :
      (c : Column) (v : Value) (m : Memory) (f w : ℕ)
      → Conforms ff c v
      → f + c.len ≤ w
      → Stores c v m f w
  stores c v m f w (inr h) apart = fixed-Stores c v m f w h.0 h.1 h.2
  stores c (text bytes owns) m f w (inl h) apart = text-Stores c bytes owns m f w h.0 h.1 h.2 apart
  stores c (num _ _) m f w (inl h) apart = elim h.2 [ ]
  stores c (fp _ _) m f w (inl h) apart = elim h.2 [ ]
  stores c (bool _) m f w (inl h) apart = elim h.2 [ ]

  record StoresAll (cs : List Column) (vs : List Value) (m : Memory) (f w : ℕ) : Type 0 where
    memory : Memory
    result : store_fields ff cs vs m f w ≡ ok (memory, w + texts_size vs)
    frame :
        (a : ℕ)
        → (a < f) ⊎ (f + sum_lengths cs ≤ a)
        → (a < w) ⊎ (w + texts_size vs ≤ a)
        → memory a ≡ m a
    reread :
        (m' : Memory)
        → ((a : ℕ) → f ≤ a → a < f + sum_lengths cs → m' a ≡ memory a)
        → ((a : ℕ) → w ≤ a → a < w + texts_size vs → m' a ≡ memory a)
        → load_fields ff cs m' f w ≡ ok (all_left vs)

  stores_all :
      (cs : List Column) (vs : List Value) (m : Memory) (f w : ℕ)
      → AllConform ff cs vs
      → f + sum_lengths cs ≤ w
      → StoresAll cs vs m f w
  unfolding store_fields load_fields
  stores_all [] [] m f w h apart = record {
    memory = m;
    result = ap (λ k. ok (m, k)) (omega arith);
    frame = λ a x y. refl;
    reread = λ m' x y. refl;
  }
  stores_all [] (v ∷ vs) m f w h apart = elim h [ ]
  stores_all (c ∷ cs) [] m f w h apart = elim h [ ]
  stores_all (c ∷ cs) (v ∷ vs) m f w h apart =
      let s = stores c v m f w h.0 (omega (arith, sum_lengths-cons c cs)) in
      let t =
        stores_all cs vs s.memory (f + c.len) (w + text_size v) h.1
          (omega (arith, sum_lengths-cons c cs)) in
      record {
        memory = t.memory;
        result = rw (s.result, t.result) (ap (λ k. ok (t.memory, k)) (omega arith));
        frame = λ a x y.
            t.frame a (grind (arith, sum_lengths-cons c cs)) (grind arith)
            ∙ s.frame a (grind (arith, sum_lengths-cons c cs)) (grind arith);
        reread = λ m' x y.
            rw
              (
                s.reread m'
                    (λ a p q.
                      x a p (omega (arith, sum_lengths-cons c cs))
                      ∙ t.frame a (inl q) (inl (omega (arith, sum_lengths-cons c cs))))
                    (λ a p q.
                      y a p (omega arith)
                      ∙ t.frame a (inr (omega (arith, sum_lengths-cons c cs))) (inl q)),
                t.reread m' (λ a p q. x a (omega arith) (omega (arith, sum_lengths-cons c cs)))
                    (λ a p q. y a (omega arith) (omega arith)),
              )
              refl;
      }

  -- A tuple read back from the bytes just written, and the number of bytes written.
  abbrev pub reread_tuple : List Column → List Value → Memory → ℕ → Outcome (List Loaded × ℕ)
  reread_tuple cs vs m buf = do
    r ← serialize_tuple ff (make_schema cs) vs m buf
    us ← deserialize_tuple ff (make_schema cs) r.0 buf
    ok (us, r.1)

  -- A tuple whose values match its columns and take fewer than 2^16 bytes in all, read back from
  -- the bytes just written: the values that are not strings are as they were, and of every string
  -- only the length is left, since the bytes that it points to have been freed; the number of bytes
  -- returned by writing is that of the fixed section and of the strings.
  pub deserialize_tuple-serialize_tuple :
      (cs : List Column) (vs : List Value) (m : Memory) (buf : ℕ)
      → AllConform ff cs vs
      → sum_lengths cs + texts_size vs < 2 ^ 16
      → reread_tuple cs vs m buf ≡ ok (all_left vs, sum_lengths cs + texts_size vs)
  unfolding serialize_tuple deserialize_tuple make_schema
  deserialize_tuple-serialize_tuple cs vs m buf h small =
      let t = stores_all cs vs m buf (buf + sum_lengths cs) h (omega arith) in
      rw (mod-eq_of_lt fits, t.result, t.reread t.memory (λ a x y. refl) (λ a x y. refl))
        (ap (λ k. ok (all_left vs, k)) (omega arith))
    where
      fits : sum_lengths cs < 2 ^ 32
      fits = omega arith
