-- ===== src/Prelude/Maps.antt =====
-- Maps with number keys, as functions.
use Prim.Native.Nat.{ℕ}
use database_internals.Prelude.Tests.{◌==◌, if◌then◌else◌}

-- `m[k] = a` at `some a`, and `m.erase(k)` at `none`.
abbrev pub update {ℓ} : {A : Type ℓ} → (ℕ → A) → ℕ → A → ℕ → A
update m k v j = if j == k then v else m j
