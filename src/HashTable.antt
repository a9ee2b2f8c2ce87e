-- ===== src/HashTable.antt =====
-- hash.h: the class template `HashTable`, a table with incremental rehashing.
pub mod Chains
pub mod Table
pub mod Sizes
pub mod Rehash
pub mod Methods
pub mod Random
pub mod Valid
pub mod Skipping
pub mod Filling
pub mod Moves
pub mod Rounds
pub mod Steps
pub mod Lookup
pub mod Unlinking
pub mod Removal
pub mod Expansion
pub mod Placing
pub mod Insertion
pub mod Assigning
pub mod Entering
pub mod Subscript
pub mod Drawing
pub mod Chances
pub mod Maps
pub mod Replacing
pub mod Milliseconds
