-- ===== src/Cleanup.antt =====
-- fetch_torrents.py: which torrents a cleanup may remove, and the three plans that choose among
-- them. Child modules: the history of ratios, the removals themselves, and the proofs.
pub mod Groups
pub mod History
pub mod Plans
pub mod Removal
pub mod Sorting
pub mod Grouping
pub mod Distinct
pub mod Leaders
pub mod Superseded
