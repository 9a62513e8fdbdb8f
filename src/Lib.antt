-- ===== src/Lib.antt =====
-- jostraca: a library that generates source files from a tree of components and saves them over
-- files that a user may have edited. This development is about the Go code, in go/.
--
-- Parts. `Merge` (go/diff.go) combines what the generator writes now, what it wrote the last time
-- and what is on disk; it splits each text by `Lines`, aligns the baseline with both sides by
-- `AlignLCS`, and walks over the baseline. `AlignLCS` rests on `LCS`, which trims the common head
-- and tail and halves the rest by `hirschberg`. `Diff` annotates the hunks that `Hunks` finds, with
-- `LCS` as well.
-- `MemFS` (go/fs.go) is the file system in memory that a build can run on: three maps, of contents,
-- times and directories, whose keys are what `memClean` makes of a path.
-- A build (go/build.go) walks over the component tree; a file's path is composed of the folders
-- around it, and two files at one path are refused. Each file is then saved (go/filehandler.go):
-- where it exists already, its modes decide whether it is kept, written, merged by `Merge` or
-- annotated by `Diff`.
-- `CmpTree` (go/tree.go) checks a component tree that is given as decoded JSON. `Check` (go/check.go)
-- runs a build on a file system that is memory below the output folder and compares the outcome with
-- what is committed there.
--
-- The options of a call (go/options.go) are put over those of the builder, and the modes of a save
-- are read of the result. What a build has saved is recorded (go/buildmeta.go), and the next build
-- reads the fingerprints of it.
-- A template asks a model for values by paths (go/getx.go), with the rules that JavaScript has for
-- properties, texts and comparisons (go/jsvalue.go).
--
-- Files.
--   Common          lists, options and bytes: shared helpers
--   Diff/Lcs        `LCS`, `hirschberg`, `lcsRow` of go/diff.go
--   Diff/Text       `Lines`
--   Diff/Align      `AlignLCS`
--   Diff/Marks      conflict markers, `HasConflicts`, `labelsOf`
--   Diff/Merge      `Merge`, its rounds and `writeConflict`
--   Diff/Merge/Cuts the chunks of a merge, a reference that reads the baseline line by line
--   Diff/Hunks      `Hunks` and `Diff`
--   Fs/Path         `memClean`, the keys of go/fs.go, and `memParent`
--   Fs/Mem          `MemFS`: its three maps, and its operations
--   Fs/Mem/Listing  `ReadDir`, with `jsLess` of go/jsvalue.go
--   Build/Names     `validName`, `isAbsFromPathOn`, `canonOutPath` and the paths that go/build.go
--                   composes
--   Build/Walk      `step` of go/build.go over projects, folders and files
--   Build/Copy      `walkCopyDepth`, the copy of a folder, over the calls that it makes
--   Build/Inject    `injectAfter`, the text between two markers
--   Save            `saveAs` and `saveMerge` of go/filehandler.go
--   Handler         the methods of `fileHandler` that read and write, over `MemFS`
--   Handler/Run     the calls of `saveAs`, carried out by these methods
--   BuildMeta       `add` of go/buildmeta.go, the entries that a build records
--   BuildMeta/Encode `encode`, the text of the meta log
--   BuildMeta/Json  the object of the TypeScript, the order of its members and `JSON.stringify`,
--                   the reference for `encode`
--   BuildMeta/Prior `priorFingerprints`
--   Check           the shadow and the comparison of go/check.go
--   Tree            `CmpTree` of go/tree.go and `propsMerge`
--   Util/Words      `Partify` of go/util.go and the forms of a name
--   Util/Indent     `Indent` of go/util.go
--   Util/Deep       `Deep` of go/util.go on decoded values
--   Js              the rules of JavaScript on values: go/jsvalue.go and the keys of go/util.go
--   Js/Index        `isArrayIndexKey` and `jsIndex`
--   Js/Order        `jsLess` as an order
--   Js/Values       `jsProp`, `jsString`, the coercions and the comparisons
--   Js/Quote        `jsQuote`
--   Js/Keys         `jsKeyOrder`
--   Getx            `GetX` of go/getx.go and `Get` of go/util.go
--   Getx/Compares   what each operator of a filter stands for
--   Options         `Options` of go/options.go, `mergeOptions` and what `modesFor` reads of it
--   Options/Decode  the decoders of `OptionsFromMap`, and the checks of its schemas
--   Options/FromMap `OptionsFromMap`
--   Options/With    `applyOptions` and the options that it runs
--   Tests           runs on small inputs
--
-- A Go string is a list of bytes and a slice is a list; an `int` index is a natural number, which
-- is enough since no index of these loops falls below 0, the value -1 of an anchor map and of
-- `best` being `none`. A slice expression that may panic is an option. A loop that is not
-- structural runs on fuel: the length of the first slice for the depth of `hirschberg`, the length
-- of the text for `Lines`, one more than the length of the file for an Inject, and the number of
-- baseline lines for `Merge`; each round of these takes at least one of what is counted, and the
-- theorems on the results have no hypothesis on fuel.
--
-- The copy of a folder recurses on what is left of `maxCopyDepth`, which is the source's own bound.
--
-- `jsLooseEqual` runs on three calls, of which each makes a number of a truth value or a text of an
-- object, and the walk of `GetX` on the number of tokens, of which a round takes one at least.
--
-- A time is a natural number, the milliseconds since 1970. In the text of the meta log a rune is
-- written by `write_rune`, a parameter, of which the theorem on the log has that a byte below 128 is
-- a rune and is written as it is.
--
-- A map is an association list. The working directory and the clock are arguments of each call of
-- the file system, and each call holds the lock, so it is one step.
--
-- Not modelled: floats, of which `Runtime` has the bits and the operations; the regular expressions
-- of go/getx.go, parameters; values that go/jsvalue.go reads by reflection; the schemas of
-- go/options.go, `isoOf`, the hash of `fingerprint` and the clock, which are parameters; `OsFS`,
-- which calls package os; `sort.Slice`, a parameter of `ReadDir`; the components of a build other than
-- projects, folders and files; what `saveAs` reads is a record, taken at the start, and its calls are
-- a list, which Handler/Run carries out; a provider with `Chmod` or without an exclusive create; the
-- texts of errors, of logs and of the audit; `path.Clean` of the Go library, a parameter, of which
-- the theorem on output paths assumes what is documented for rooted paths, `path.Dir` and `path.Ext`;
-- the loops over runes of go/jscase.go, parameters of Util/Words; the walk over the files that a
-- check's run made; the closures that a tree's nodes become;
-- the rest of go/; the ports in ts/ and rs/.
pub mod Common
pub mod Build
pub mod BuildMeta
pub mod Check
pub mod Diff
pub mod Fs
pub mod Getx
pub mod Handler
pub mod Js
pub mod Options
pub mod Save
pub mod Tree
pub mod Util
pub mod Tests
