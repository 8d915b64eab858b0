-- ===== src/Types/Value/Frames.antt =====
-- Which bytes a value's binary form takes, and which its reading looks at.
use database_internals.Prelude.{
  ℕ, ◌+◌, ◌≡◌, ◌<◌, ◌≤◌, ◌⊎◌, inl, inr, ◌∙◌, ap, refl, arith, length, ok,
}
use database_internals.Memory.{Memory}
use database_internals.Memory.Laws.{write_le_apart, read_le_ext}
use database_internals.Types.Value.{
  Value, num, fp, bool, text, TypeId, invalid, boolean, numeric, floating, varchar, FloatFormat,
  serialize, deserialize, serialized_size, make_int, sign_extend,
}
use database_internals.Types.Value.RoundTrip.{Fits, deserialize-serialize}

abbrev pub text_size : Value → ℕ
text_size (text bytes owns) = length bytes
text_size _ = 0

module _ (ff : FloatFormat) where
  pub serialized_size-Fits :
      (t : TypeId) (width : ℕ) (v : Value)
      → Fits ff t width v
      → (serialized_size v ≡ width) × (text_size v ≡ 0)
  unfolding serialized_size
  serialized_size-Fits numeric width (num v w) f = (f.0, refl)
  serialized_size-Fits floating width (fp d w) f = (f.0, refl)
  serialized_size-Fits boolean width (bool b) f = (omega (arith, f), refl)
  serialized_size-Fits numeric width (bool b) f = elim f [ ]
  serialized_size-Fits numeric width (fp b x) f = elim f [ ]
  serialized_size-Fits numeric width (text b x) f = elim f [ ]
  serialized_size-Fits floating width (bool b) f = elim f [ ]
  serialized_size-Fits floating width (num b x) f = elim f [ ]
  serialized_size-Fits floating width (text b x) f = elim f [ ]
  serialized_size-Fits boolean width (num b x) f = elim f [ ]
  serialized_size-Fits boolean width (fp b x) f = elim f [ ]
  serialized_size-Fits boolean width (text b x) f = elim f [ ]
  serialized_size-Fits varchar width v f = elim f [ ]
  serialized_size-Fits invalid width v f = elim f [ ]

  float_ext :
      (width : ℕ) (m n : Memory) (o : ℕ)
      → (width ≡ 4) ⊎ (width ≡ 8)
      → ((a : ℕ) → o ≤ a → a < o + width → m a ≡ n a)
      → deserialize ff floating m o width ≡ deserialize ff floating n o width
  unfolding deserialize
  float_ext width m n o (inl k) e =
      ground (arith, read_le_ext 4 m n o (λ a x y. e a x (omega arith)), k)
  float_ext width m n o (inr k) e =
      ground (arith, read_le_ext 8 m n o (λ a x y. e a x (omega arith)), k)

  pub serialize_apart :
      (t : TypeId) (width : ℕ) (v : Value) (m : Memory) (o a : ℕ)
      → Fits ff t width v
      → (a < o) ⊎ (o + width ≤ a)
      → serialize ff v m o a ≡ m a
  unfolding serialize
  serialize_apart numeric width (num v w) m o a f h = write_le_apart w m o a v (rw f.0 h)
  serialize_apart floating width (fp d w) m o a f h =
      ground (arith, write_le_apart 4 m o a (ff.narrow d), write_le_apart 8 m o a d)
  serialize_apart boolean width (bool b) m o a f h = write_le_apart 1 m o a _ (rw f at h)
  serialize_apart numeric width (bool b) m o a f h = elim f [ ]
  serialize_apart numeric width (fp b x) m o a f h = elim f [ ]
  serialize_apart numeric width (text b x) m o a f h = elim f [ ]
  serialize_apart floating width (bool b) m o a f h = elim f [ ]
  serialize_apart floating width (num b x) m o a f h = elim f [ ]
  serialize_apart floating width (text b x) m o a f h = elim f [ ]
  serialize_apart boolean width (num b x) m o a f h = elim f [ ]
  serialize_apart boolean width (fp b x) m o a f h = elim f [ ]
  serialize_apart boolean width (text b x) m o a f h = elim f [ ]
  serialize_apart varchar width v m o a f h = elim f [ ]
  serialize_apart invalid width v m o a f h = elim f [ ]

  deserialize_ext :
      (t : TypeId) (width : ℕ) (v : Value) (m n : Memory) (o : ℕ)
      → Fits ff t width v
      → ((a : ℕ) → o ≤ a → a < o + width → m a ≡ n a)
      → deserialize ff t m o width ≡ deserialize ff t n o width
  unfolding deserialize
  deserialize_ext numeric width v m n o f e =
      ap (λ k. make_int (sign_extend width k) width) (read_le_ext width m n o e)
  deserialize_ext floating width (fp d w) m n o f e =
      float_ext width m n o (elim f.1 [ inl k ↦ inr k.0 | inr k ↦ inl k.0 ]) e
  deserialize_ext boolean width (bool b) m n o f e = ground (arith, f, e o)
  deserialize_ext floating width (bool b) m n o f e = elim f [ ]
  deserialize_ext floating width (num b x) m n o f e = elim f [ ]
  deserialize_ext floating width (text b x) m n o f e = elim f [ ]
  deserialize_ext boolean width (num b x) m n o f e = elim f [ ]
  deserialize_ext boolean width (fp b x) m n o f e = elim f [ ]
  deserialize_ext boolean width (text b x) m n o f e = elim f [ ]
  deserialize_ext varchar width v m n o f e = elim f [ ]
  deserialize_ext invalid width v m n o f e = elim f [ ]

  -- A memory that holds the value's bytes yields the value.
  pub deserialize-written :
      (t : TypeId) (width : ℕ) (v : Value) (m m' : Memory) (o : ℕ)
      → Fits ff t width v
      → ((a : ℕ) → o ≤ a → a < o + width → m' a ≡ serialize ff v m o a)
      → deserialize ff t m' o width ≡ ok v
  deserialize-written t width v m m' o f e =
      deserialize_ext t width v m' (serialize ff v m o) o f e
      ∙ deserialize-serialize ff t width v m o f
