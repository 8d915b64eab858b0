-- ===== src/Types/Column/Lookup.antt =====
-- Looking a column up by its name, and which columns of a schema have a fixed length.
use database_internals.Prelude.{
  ℕ, suc, ◌+◌, ◌≡◌, ◌≤◌, inl, inr, refl, List, [], ◌∷◌, arith, length, ◌==◌, ◌||◌, Bool, true,
  false, not, Option, none, some, Bool-cases,
}
use database_internals.Types.Column.{
  Column, make_schema, find_column, same_name, get_col_idx, has_variable_length_columns,
  fixed_indices, is_variable_length,
}

same_name-same : (xs : List ℕ) → same_name xs xs ≡ true
unfolding same_name
same_name-same [] = refl
same_name-same (x ∷ xs) = ground (arith, same_name-same xs)

same_name-eq : (xs ys : List ℕ) → same_name xs ys ≡ true → xs ≡ ys
unfolding same_name
same_name-eq [] [] h = refl
same_name-eq [] (y ∷ ys) h = cc
same_name-eq (x ∷ xs) [] h = cc
same_name-eq (x ∷ xs) (y ∷ ys) h = ground (arith, same_name-eq xs ys)

-- What `GetColIdx` answers: the first column with the name, or that there is none.
pub data IsFirst (name : List ℕ) : List Column → Option ℕ → Type 0 where
  nowhere : IsFirst name [] none
  here : (c : Column) (cs : List Column) → c.name ≡ name → IsFirst name (c ∷ cs) (some 0)
  not_there :
      (c : Column) (cs : List Column)
      → ¬ (c.name ≡ name)
      → IsFirst name cs none
      → IsFirst name (c ∷ cs) none
  there :
      (c : Column) (cs : List Column) (i : ℕ)
      → ¬ (c.name ≡ name)
      → IsFirst name cs (some i)
      → IsFirst name (c ∷ cs) (some (suc i))

shifted : ℕ → Option ℕ → Option ℕ
shifted i none = none
shifted i (some k) = some (i + k)

find_column_lem :
    (i : ℕ) (name : List ℕ) (cs : List Column)
    → find_column i name cs ≡ shifted i (find_column 0 name cs)
unfolding find_column shifted
find_column_lem i name [] = refl
find_column_lem i name (c ∷ cs) =
    ground (arith, find_column_lem (suc i) name cs, find_column_lem 1 name cs)

one_add : (k : ℕ) → 1 + k ≡ suc k
one_add k = omega arith

later :
    (name : List ℕ) (c : Column) (cs : List Column) (r : Option ℕ)
    → ¬ (c.name ≡ name)
    → IsFirst name cs r
    → IsFirst name (c ∷ cs) (shifted 1 r)
unfolding shifted
later name c cs none differs h = not_there c cs differs h
later name c cs (some k) differs h = rw (one_add k) (there c cs k differs h)

-- `GetColIdx` finds the first column that has the name, and nothing when none has it.
pub get_col_idx-IsFirst :
    (cs : List Column) (name : List ℕ) → IsFirst name cs (get_col_idx (make_schema cs) name)
unfolding get_col_idx make_schema find_column shifted
get_col_idx-IsFirst [] name = nowhere
get_col_idx-IsFirst (c ∷ cs) name = elim (Bool-cases (same_name c.name name)) [
  | inl s ↦ rw s (here c cs (same_name-eq c.name name s))
  | inr d ↦
      rw (d, find_column_lem 1 name cs)
        (later name c cs (find_column 0 name cs) (λ e. ground (arith, same_name-same name, e))
          (get_col_idx-IsFirst cs name))
]

abbrev pub any_variable : List Column → Bool
any_variable [] = false
any_variable (c ∷ cs) = is_variable_length c || any_variable cs

length-fixed_indices :
    (i : ℕ) (cs : List Column)
    → (length (fixed_indices i cs) ≤ length cs)
      × ((length (fixed_indices i cs) == length cs) ≡ not (any_variable cs))
unfolding fixed_indices
length-fixed_indices i [] = ground arith
length-fixed_indices i (c ∷ cs) = ground (arith, length-fixed_indices (suc i) cs)

-- A schema says that it has columns of variable length exactly when one of its columns is a
-- VARCHAR.
pub has_variable_length_columns_lem :
    (cs : List Column) → has_variable_length_columns (make_schema cs) ≡ any_variable cs
unfolding has_variable_length_columns make_schema
has_variable_length_columns_lem cs = ground (arith, length-fixed_indices 0 cs)
