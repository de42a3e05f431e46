-- ===== src/EcSrp5.antt =====
-- EC-SRP5 of src/ecsrp5.rs. A `BigUint` is a natural number; `modpow` and SHA-256 are arguments, as
-- their code is that of packages, and so are the random keys.
pub mod Field
pub mod Sqrt
pub mod Point
pub mod Octets
pub mod Curve
pub mod Exchange
pub mod Roots
pub mod Lifting
pub mod Padding
pub mod Blinding
pub mod Multiples
pub mod Frames
pub mod ServerEnd
pub mod ClientEnd
pub mod Agreement
pub mod Example
mod Tests
