-- ===== src/Options.antt =====
-- go/options.go: the fields of `Options`, how they are read from a map that is not typed, and how the
-- options of a call are put over those of the builder.
pub mod Merge
pub mod Decode
pub mod With
pub mod FromMap
pub mod Usable
use jostraca.Common.{
  Bool, true, false, not, ◌&&◌, ◌||◌, List, [], ◌∷◌, Option, none, some, ◌⊎◌, inl, inr, Bytes,
  codes, bytes_eq, if◌then◌else◌, Map, lookup, insert,
}
use jostraca.Js.Index.{is_empty}
use jostraca.Save.{ExistingModes, ModeBits, modes_for}

pub record ExistingTxt : Type 0 where
  pub write : Option Bool
  pub preserve : Option Bool
  pub present : Option Bool
  pub diff_mode : Option Bool
  pub merge_mode : Option Bool
  pub conflict : Bytes

pub record ExistingBin : Type 0 where
  pub write : Option Bool
  pub preserve : Option Bool
  pub present : Option Bool

pub record Existing : Type 0 where
  pub txt : ExistingTxt
  pub bin : ExistingBin

pub record Control : Type 0 where
  pub dryrun : Bool
  pub no_duplicate : Bool
  pub version : Bool

-- A value of the type `any`: `host_value` is one that is neither decoded data nor bytes, such as a
-- file system, a clock, a logger or a regular expression.
mutual
  pub data Any (H : Type 0) : Type 0 where
    nil_value : Any H
    bool_of : Bool → Any H
    text_of : Bytes → Any H
    bytes_of : Bytes → Any H
    files : Map (Option Bytes) → Any H
    list_of : Anys H → Any H
    map_of : Entries H → Any H
    host_value : H → Any H

  pub data Anys (H : Type 0) : Type 0 where
    no_anys : Anys H
    any_of : Any H → Anys H → Anys H

  pub data Entries (H : Type 0) : Type 0 where
    no_entries : Entries H
    entry : Bytes → Any H → Entries H → Entries H

-- `m[key]`.
unfoldable pub get_entry : {H : Type 0} → Bytes → Entries H → Option (Any H)
get_entry k no_entries = none
get_entry k (entry j v m) = let rest = get_entry k m in if bytes_eq j k then some v else rest

pub data NameMatcher (H : Type 0) : Type 0 where
  literal : Bytes → NameMatcher H
  matches_re : H → NameMatcher H

pub record NameAffix : Type 0 where
  pub prefix : Bytes
  pub suffix : Bytes

pub record NameOptions (H : Type 0) : Type 0 where
  pub file : NameAffix
  pub folder : NameAffix
  pub exclude : List (NameMatcher H)

-- A nil map, pointer or interface is none; `ignore` is `Cmp.Copy.Ignore`, and a file of `vol` is none
-- where it is a folder.
pub record Options (H : Type 0) : Type 0 where
  pub folder : Bytes
  pub meta : Option (Entries H)
  pub fs : Option H
  pub now : Option H
  pub log : Option H
  pub debug : Bytes
  pub existing : Existing
  pub model : Option (Entries H)
  pub build : Option Bool
  pub mem : Option Bool
  pub vol : Option (Map (Option Bytes))
  pub ignore : List H
  pub control : Control
  pub name : NameOptions H
  pub exclude : Bool

abbrev pub over_bool : Option Bool → Option Bool → Option Bool
over_bool global none = global
over_bool global (some b) = some b

-- The tests `call.X != nil` and `call.X != ""`.
abbrev pub over {ℓ} : {A : Type ℓ} → Option A → Option A → Option A
over global none = global
over global (some a) = some a

abbrev pub over_text : Bytes → Bytes → Bytes
over_text global call = if is_empty call then global else call

-- A loop over a map; its keys differ, so their order is free.
unfoldable pub put_files : Map (Option Bytes) → Map (Option Bytes) → Map (Option Bytes)
unfolding insert
put_files [] out = out
put_files ((k, v) ∷ m) out = insert k v (put_files m out)

abbrev pub files_of : Option (Map (Option Bytes)) → Map (Option Bytes)
files_of none = []
files_of (some m) = m

unfoldable pub merge_vol :
    Option (Map (Option Bytes)) → Option (Map (Option Bytes)) → Option (Map (Option Bytes))
unfolding put_files
merge_vol global none = global
merge_vol global (some call) = some (put_files call (put_files (files_of global) []))

unfoldable pub merge_existing : Existing → Existing → Existing
merge_existing global call = record {
  txt = record {
    write = over_bool global.txt.write call.txt.write;
    preserve = over_bool global.txt.preserve call.txt.preserve;
    present = over_bool global.txt.present call.txt.present;
    diff_mode = over_bool global.txt.diff_mode call.txt.diff_mode;
    merge_mode = over_bool global.txt.merge_mode call.txt.merge_mode;
    conflict = over_text global.txt.conflict call.txt.conflict;
  };
  bin = record {
    write = over_bool global.bin.write call.bin.write;
    preserve = over_bool global.bin.preserve call.bin.preserve;
    present = over_bool global.bin.present call.bin.present;
  };
}

abbrev pub merge_control : Control → Control → Control
merge_control global call = record {
  dryrun = global.dryrun || call.dryrun;
  no_duplicate = global.no_duplicate || call.no_duplicate;
  version = global.version || call.version;
}

-- The options of `cmp` and `name` are the builder's.
unfoldable pub merge_options : {H : Type 0} → Options H → Options H → Options H
unfolding merge_vol merge_existing
merge_options global call = record {
  folder = over_text global.folder call.folder;
  meta = over global.meta call.meta;
  fs = over global.fs call.fs;
  now = over global.now call.now;
  log = over global.log call.log;
  debug = over_text global.debug call.debug;
  existing = merge_existing global.existing call.existing;
  model = over global.model call.model;
  build = over global.build call.build;
  mem = over global.mem call.mem;
  vol = merge_vol global.vol call.vol;
  ignore = global.ignore;
  control = merge_control global.control call.control;
  name = global.name;
  exclude = if call.exclude then true else global.exclude;
}

-- What `modesFor` of the file handler reads of the options.
abbrev pub txt_modes : ExistingTxt → ExistingModes
txt_modes t = record {
  write = t.write;
  preserve = t.preserve;
  present = t.present;
  diff_mode = t.diff_mode;
  merge_mode = t.merge_mode;
  conflict_fail = bytes_eq t.conflict (codes "fail");
}

abbrev pub bin_modes : ExistingBin → ExistingModes
bin_modes b = record {
  write = b.write;
  preserve = b.preserve;
  present = b.present;
  diff_mode = none;
  merge_mode = none;
  conflict_fail = false;
}

unfoldable pub modes_of : {H : Type 0} → Options H → Bool → ModeBits
unfolding modes_for
modes_of o is_text = modes_for (txt_modes o.existing.txt) (bin_modes o.existing.bin) is_text
