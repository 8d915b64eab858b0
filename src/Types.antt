-- ===== src/Types.antt =====
-- type/: values, their binary form, columns, schemas and tuples.
pub mod Value
pub mod Column
pub mod Tuple
mod Tests
