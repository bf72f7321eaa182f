-- ===== src/BTree.antt =====
-- std's `BTreeMap` and `BTreeSet`, as association lists in increasing order of the keys.
mod Defs
pub mod Laws
unfoldable pub use Defs.{
  key_eq, lookup, insert, or_insert, remove, Map, contains_key, keys, Set, set_insert, mem,
}
