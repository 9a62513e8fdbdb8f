-- ===== src/Options/With.antt =====
-- `applyOptions` of go/options.go and the options that it runs.
use jostraca.Common.{Bool, true, false, List, [], ◌∷◌, Option, none, some, Bytes, Map}
use jostraca.Options.{Existing, ExistingTxt, ExistingBin, Control, Entries, NameAffix, Options}

abbrev pub no_txt : ExistingTxt
no_txt = record {
  write = none;
  preserve = none;
  present = none;
  diff_mode = none;
  merge_mode = none;
  conflict = [];
}

abbrev pub no_bin : ExistingBin
no_bin = record { write = none; preserve = none; present = none }

abbrev pub no_affix : NameAffix
no_affix = record { prefix = []; suffix = [] }

-- `Options{}`.
abbrev pub zero_options : {H : Type 0} → Options H
zero_options = record {
  folder = [];
  meta = none;
  fs = none;
  now = none;
  log = none;
  debug = [];
  existing = record { txt = no_txt; bin = no_bin };
  model = none;
  build = none;
  mem = none;
  vol = none;
  ignore = [];
  control = record { dryrun = false; no_duplicate = false; version = false };
  name = record { file = no_affix; folder = no_affix; exclude = [] };
  exclude = false;
}

module _ {H : Type 0} where
  abbrev pub with_folder : Bytes → Options H → Options H
  with_folder s o = record o { folder = s }

  abbrev pub with_model : Option (Entries H) → Options H → Options H
  with_model m o = record o { model = m }

  abbrev pub with_meta : Option (Entries H) → Options H → Options H
  with_meta m o = record o { meta = m }

  abbrev pub with_log : Option H → Options H → Options H
  with_log l o = record o { log = l }

  abbrev pub with_debug : Bytes → Options H → Options H
  with_debug s o = record o { debug = s }

  abbrev pub with_mem : Options H → Options H
  with_mem o = record o { mem = some true }

  abbrev pub without_mem : Options H → Options H
  without_mem o = record o { mem = some false }

  abbrev pub with_vol : Option (Map (Option Bytes)) → Options H → Options H
  with_vol v o = record o { vol = v }

  abbrev pub with_fs : Option H → Options H → Options H
  with_fs f o = record o { fs = f }

  abbrev pub with_now : Option H → Options H → Options H
  with_now f o = record o { now = f }

  abbrev pub with_existing : Existing → Options H → Options H
  with_existing e o = record o { existing = e }

  abbrev pub with_control : Control → Options H → Options H
  with_control c o = record o { control = c }

  abbrev pub with_build : Bool → Options H → Options H
  with_build b o = record o { build = some b }

  -- The loop over the options, on what those before it have made.
  unfoldable pub run_options : List (Options H → Options H) → Options H → Options H
  run_options [] o = o
  run_options (fn ∷ opts) o = run_options opts (fn o)

  unfoldable pub apply_options : List (Options H → Options H) → Options H
  unfolding run_options
  apply_options opts = run_options opts zero_options
