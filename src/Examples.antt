-- ===== src/Examples.antt =====
-- The theorems at concrete inputs, and tests of the definitions.
pub mod Toy
pub mod Codec
pub mod Proxy
pub mod Local
pub mod Table
pub mod Keys
pub mod Bundles
pub mod Serving
pub mod Wire
pub mod Kernels
pub mod Tasks
pub mod Targets
