-- ===== src/Funk.antt =====
-- The collections of pkg/funk: slices, maps and sets, the building blocks of the other packages.
pub mod Slice
pub mod Sets
pub mod Maps
