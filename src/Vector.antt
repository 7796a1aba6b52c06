-- ===== src/Vector.antt =====
-- The containers of src/core: str_vector.c, kv_vector.c, int_vector.c and expr_vector.c.
pub mod IntVector
pub mod StrVector
pub mod KvVector
pub mod ExprVector
