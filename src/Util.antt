-- ===== src/Util.antt =====
-- The text helpers of go/util.go.
pub mod Words
pub mod Indent
pub mod Deep
