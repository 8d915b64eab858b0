-- ===== src/Types/Value/Tests.antt =====
-- Sums and differences of concrete values.
use database_internals.Prelude.{◌+◌, ◌-◌, ◌^◌, inl, inr, refl, arith, ltb, if◌then◌else◌}
use database_internals.Types.Value.{FloatArithmetic, num, numeric, biased, add, sub}
use database_internals.Types.Value.Arithmetic.{IsExact, add-sub-IsExact}

abbrev floats : FloatArithmetic
floats = record { plus = λ a b. a + b; minus = λ a b. a - b }

-- The greatest `int64_t` and 5, in 8 bytes and 1 byte: the sum does not fit, the difference does.
add-sub-IsExact_example :
    IsExact
      (add floats numeric (num (2 ^ 63 - 1) 8) (num 5 1))
      (biased (2 ^ 63 - 1) + biased 5)
      (if ltb 1 8 then 8 else 1)
    × IsExact
        (sub floats numeric (num (2 ^ 63 - 1) 8) (num 5 1))
        (biased (2 ^ 63 - 1) + 2 ^ 64 - biased 5)
        (if ltb 1 8 then 8 else 1)
add-sub-IsExact_example =
    add-sub-IsExact floats (2 ^ 63 - 1) 5 8 1 (omega arith) (omega arith) (inr (inr (inr refl)))
      (inl refl)
