-- ===== src/Catalog.antt =====
-- src/polymaker/catalog: the markets that Gamma lists and the books that the scanner measures.
pub mod Gamma
pub mod Scan
pub mod Store
pub mod Ranking
pub mod Sweep
pub mod Swept
pub mod Thinnest
pub mod Usable
