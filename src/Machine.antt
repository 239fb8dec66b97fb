-- ===== src/Machine.antt =====
-- Machine integers and IEEE 754 floats, as the code's `u64`, `f32` and `f64` compute.
pub mod Word
pub mod Float
