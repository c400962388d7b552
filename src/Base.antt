-- ===== src/Base.antt =====
-- What every module shares: names of the libraries, Boolean tests on numbers, lists over the
-- native numbers, the strings of the source and keyed tables.
pub mod Tests
pub mod Lists
pub mod Text
pub mod Table
pub mod Sort
pub mod Orders
pub mod Decimal
pub mod Distinct
pub mod Permute
