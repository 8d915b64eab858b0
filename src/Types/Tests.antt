-- ===== src/Types/Tests.antt =====
-- The types at concrete values.
use database_internals.Prelude.{ℕ, ◌-◌, ◌^◌, ◌≡◌, inl, inr, refl, [], ◌∷◌, arith, false, ok}
use database_internals.Memory.{Memory}
use database_internals.Types.Value.{num, text, numeric, varchar, FloatFormat}
use database_internals.Types.Column.{
  Column, serialize_schema, deserialize_schema, make_schema, sum_lengths,
}
use database_internals.Types.Column.RoundTrip.{IsStorable, deserialize_schema-serialize_schema}
use database_internals.Types.Tuple.{whole, freed}
use database_internals.Types.Tuple.RoundTrip.{reread_tuple, deserialize_tuple-serialize_tuple}

abbrev zeros : Memory
zeros a = 0

abbrev identity : FloatFormat
identity = record { narrow = λ b. b; widen = λ b. b }

abbrev key : Column
key = record { name = 0x6b ∷ []; type_id = numeric; len = 4; offset = 0 }

abbrev note : Column
note = record { name = 0x6e ∷ 0x6f ∷ []; type_id = varchar; len = 2; offset = 4 }

key-IsStorable : IsStorable key
key-IsStorable = record {
  name_fits = omega arith;
  len_fits = omega arith;
  offset_fits = omega arith;
}

note-IsStorable : IsStorable note
note-IsStorable = record {
  name_fits = omega arith;
  len_fits = omega arith;
  offset_fits = omega arith;
}

-- The pattern of -2.
abbrev minus_two : ℕ
minus_two = 2 ^ 64 - 2

deserialize_schema-serialize_schema_example :
    let (m', n) = serialize_schema (make_schema (key ∷ note ∷ [])) zeros 100 in
    deserialize_schema m' 100 ≡ (make_schema (key ∷ note ∷ []), n)
deserialize_schema-serialize_schema_example =
    deserialize_schema-serialize_schema (key ∷ note ∷ []) zeros 100
      (key-IsStorable, (note-IsStorable, tt)) (omega arith) (omega arith)

deserialize_tuple-serialize_tuple_example :
    reread_tuple identity
      (key ∷ note ∷ [])
      (num minus_two 4 ∷ text (0x68 ∷ 0x69 ∷ []) false ∷ [])
      zeros
      50
    ≡ ok (whole (num minus_two 4) ∷ freed 2 ∷ [], 8)
unfolding sum_lengths
deserialize_tuple-serialize_tuple_example =
    deserialize_tuple-serialize_tuple identity (key ∷ note ∷ [])
      (num minus_two 4 ∷ text (0x68 ∷ 0x69 ∷ []) false ∷ []) zeros 50
      (
        inr (refl, omega arith, (refl, inr (inr (inl refl)), inr (omega arith, omega arith))),
        (inl (refl, refl, omega arith), tt),
      )
      (omega arith)
