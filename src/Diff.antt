-- ===== src/Diff.antt =====
-- go/diff.go: the line diff, the three-way merge and the annotated diff.
pub mod Lcs
pub mod Text
pub mod Align
pub mod Marks
pub mod Merge
pub mod Hunks
