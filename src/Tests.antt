-- ===== src/Tests.antt =====
-- Runs at concrete data, and the theorems at inputs that meet their hypotheses.
pub mod DiffTests
pub mod FsTests
pub mod BuildTests
pub mod CopyTests
pub mod InsertionSort
pub mod InjectTests
pub mod OptionsTests
pub mod JsTests
pub mod GetxTests
pub mod SaveTests
pub mod HandlerTests
pub mod CheckTests
pub mod TreeTests
pub mod UtilTests
pub mod BuildMetaTests
