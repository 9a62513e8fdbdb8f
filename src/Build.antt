-- ===== src/Build.antt =====
-- go/build.go: where a build puts the files of a component tree.
pub mod Names
pub mod Walk
pub mod Copy
pub mod Inject
