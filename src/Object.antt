-- ===== src/Object.antt =====
-- source/object: values, arrays, the hash map with its insertion order, and interned strings.
pub mod Value
pub mod Array
pub mod Fields
pub mod Access
