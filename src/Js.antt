-- ===== src/Js.antt =====
-- JavaScript's rules on decoded values: go/jsvalue.go, and `isArrayIndexKey` of go/util.go.
pub mod Index
pub mod Order
pub mod Values
pub mod Quote
pub mod Keys
