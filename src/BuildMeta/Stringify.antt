-- ===== src/BuildMeta/Stringify.antt =====
-- The meta log of go/buildmeta.go is what `JSON.stringify(meta, null, 2)` writes of the object that
-- the TypeScript keeps, where no path is an array index.
use jostraca.Common.{◌≡◌, false, List, All}
use jostraca.Js.Index.{is_array_index_key}
use jostraca.BuildMeta.{MetaEntry}

-- No path is an array index.
abbrev pub NoIndex : List MetaEntry → Type 0
NoIndex files = All (λ e. is_array_index_key e.path ≡ false) files
