-- ===== src/Base.antt =====
-- Shared names: the libraries' passed on, Boolean tests on numbers, lists, equality of keys,
-- and JavaScript's Map.
mod Tests
mod Lists
mod Equality
mod Int
pub mod Map
pub mod Sorting
pub use Tests.*
pub use Lists.*
pub use Int.*
pub use Equality.*
