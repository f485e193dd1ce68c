-- ===== src/Modules.antt =====
-- src/driver/ModuleLoader.cpp: the files that imports bring in, in the order in which their declarations are appended.
-- The file system is a parameter, and so is what the lexer and the parser make of a file.
pub mod Once
pub mod Ends
mod Tests
use my_llvm_c.Prelude.{
  ℕ, zero, suc, ◌+◌, ◌-◌, Bool, true, false, not, ◌&&◌, ◌||◌, List, [], ◌∷◌, ◌++◌, map, Option,
  none, some, leb, ◌==◌, if◌then◌else◌, length, take, drop, Bytes, bytes_eq, codes,
}
use my_llvm_c.Mangle.{has, insert}

-- `endsWith`.
unfoldable pub ends_with : Bytes → Bytes → Bool
unfolding bytes_eq
ends_with s suffix =
    leb (length suffix) (length s) && bytes_eq (drop (length s - length suffix) s) suffix

unfoldable pub contains : ℕ → Bytes → Bool
contains c [] = false
contains c (x ∷ s) = x == c || contains c s

abbrev pub extension : Bytes
extension = codes ".cmm"

abbrev pub dot_to_slash : ℕ → ℕ
dot_to_slash c = if c == b'.' then b'/' else c

-- `importCandidates`.
unfoldable pub import_candidates : Bytes → List Bytes
unfolding ends_with contains
import_candidates spec =
    if contains b'/' spec || ends_with spec extension
    then spec ∷ []
    else let dotted = map dot_to_slash spec in
      (dotted ++ extension) ∷ dotted ∷ (spec ++ extension) ∷ spec ∷ []

abbrev pub slash_to_dot : ℕ → ℕ
slash_to_dot c = if c == b'/' || c == b'\\' then b'.' else c

-- `specifierToModuleName`.
unfoldable pub specifier_to_module_name : Bytes → Bytes
unfolding ends_with
specifier_to_module_name spec =
    map slash_to_dot (if ends_with spec extension then take (length spec - 4) spec else spec)

-- `isDottedSpecifier`.
unfoldable pub is_dotted_specifier : Bytes → Bool
unfolding ends_with contains
is_dotted_specifier spec =
    not (contains b'/' spec) && not (contains b'\\' spec) && not (ends_with spec extension)

-- `isLegacySmcSpecifier`.
unfoldable pub is_legacy_smc_specifier : Bytes → Bool
unfolding ends_with
is_legacy_smc_specifier spec = ends_with spec (codes ".smc")

-- The messages, with what they name: the modules of the cycle, the last first, or a file and a name.
pub data LoadError : Type 0 where
  circular_import : List Bytes → LoadError
  cannot_read : Bytes → LoadError
  diagnostic : Bytes → LoadError
  name_mismatch : Bytes → Bytes → Bytes → LoadError
  legacy_source : LoadError
  cannot_resolve : Bytes → Bytes → LoadError

-- What the loader reads of a parsed file.
pub record ModuleAst (D : Type 0) : Type 0 where
  pub module_name : Bytes
  pub imports : List Bytes
  pub declarations : List D

-- A file that cannot be read, one that is given up with its diagnostics, and one that is parsed, with warnings.
pub data Source (D : Type 0) : Type 0 where
  unreadable : Source D
  rejected : List Bytes → Source D
  parsed : List Bytes → ModuleAst D → Source D

-- `active` has the module that was entered last at its head. `out` pairs each module with its declarations, the last
-- first. `exhausted` is set if the steps run out, which the program has no counterpart of.
pub record Loader (D : Type 0) : Type 0 where
  pub loaded : List Bytes
  pub active : List Bytes
  pub out : List (Bytes × List D)
  pub errors : List LoadError
  pub exhausted : Bool

-- The file system: the canonical path, the directory of a file, a candidate in a directory if it is a file, and the
-- source of a file. A declaration is tagged with the name of its module.
pub record Files (D : Type 0) : Type 0 where
  pub canonical : Bytes → Bytes
  pub parent : Bytes → Bytes
  pub regular_file : Bytes → Bytes → Option Bytes
  pub source : Bytes → Source D
  pub tag : Bytes → D → D

unfoldable pub is_blank : Bytes → Bool
is_blank [] = true
is_blank (c ∷ s) = false

-- The part of the stack from the module on, innermost first.
unfoldable pub cycle_from : Bytes → List Bytes → List Bytes
unfolding bytes_eq
cycle_from c [] = []
cycle_from c (m ∷ rest) =
    let outer = cycle_from c rest in if bytes_eq m c then m ∷ [] else m ∷ outer

module _ {D : Type 0} (fs : Files D) where
  unfoldable pub first_candidate : Bytes → List Bytes → Option Bytes
  first_candidate dir [] = none
  first_candidate dir (c ∷ rest) = elim (fs.regular_file dir c) [
    | none ↦ first_candidate dir rest
    | some path ↦ some path
  ]

  unfoldable pub search_dirs : Bytes → List Bytes → Option Bytes
  unfolding import_candidates first_candidate
  search_dirs spec [] = none
  search_dirs spec (dir ∷ rest) = elim (first_candidate dir (import_candidates spec)) [
    | none ↦ search_dirs spec rest
    | some path ↦ some path
  ]

  -- `resolveImport`.
  unfoldable pub resolve_import : Bytes → List Bytes → Option Bytes
  unfolding is_blank is_legacy_smc_specifier search_dirs
  resolve_import spec dirs =
      if is_blank spec || is_legacy_smc_specifier spec then none else search_dirs spec dirs

  unfoldable pub report : LoadError → Loader D → Loader D
  report e l = record l { errors = l.errors ++ e ∷ [] }

  unfoldable pub report_all : List Bytes → Loader D → Loader D
  report_all ds l = record l { errors = l.errors ++ map diagnostic ds }

  -- The declarations of a module that has a name are tagged with it.
  unfoldable pub tagged : ModuleAst D → List D
  unfolding is_blank
  tagged m =
      if is_blank m.module_name then m.declarations else map (fs.tag m.module_name) m.declarations

  unfoldable pub is_misnamed : Bytes → ModuleAst D → Bool
  unfolding is_blank is_dotted_specifier specifier_to_module_name bytes_eq
  is_misnamed spec m =
      not (is_blank m.module_name)
      && is_dotted_specifier spec
      && not (bytes_eq (specifier_to_module_name spec) m.module_name)

  unfoldable pub enter : Bytes → Loader D → Loader D
  enter c l = record l { active = c ∷ l.active }

  unfoldable pub leave : Bytes → Loader D → Loader D
  leave c l = record l { active = drop 1 l.active }

  unfoldable pub append_module : Bytes → ModuleAst D → Loader D → Loader D
  unfolding tagged
  append_module c m l = record l { out = (c, tagged m) ∷ l.out }

  -- One import of the module `from`; `load` loads a file for a specifier.
  unfoldable pub import_one :
      (Bytes → Bytes → Loader D → Loader D) → Bytes → List Bytes → Bytes → Loader D → Loader D
  unfolding is_legacy_smc_specifier resolve_import report
  import_one load from dirs spec l =
      if is_legacy_smc_specifier spec
      then report legacy_source l
      else elim (resolve_import spec dirs) [
        | none ↦ report (cannot_resolve from spec) l
        | some path ↦ load path spec l
      ]

  unfoldable pub import_all :
      (Bytes → Bytes → Loader D → Loader D) → Bytes → List Bytes → List Bytes → Loader D → Loader D
  unfolding import_one
  import_all load from dirs [] l = l
  import_all load from dirs (spec ∷ rest) l =
      import_all load from dirs rest (import_one load from dirs spec l)

  -- A module that is read, with the loader of its imports.
  unfoldable pub load_parsed :
      (List Bytes → Loader D → Loader D) → Bytes → Bytes → ModuleAst D → Loader D → Loader D
  unfolding is_misnamed report enter leave append_module
  load_parsed imports c spec m l =
      if is_misnamed spec m
      then report (name_mismatch c m.module_name (specifier_to_module_name spec)) l
      else append_module c m (leave c (imports m.imports (enter c l)))

  unfoldable pub load_source :
      (List Bytes → Loader D → Loader D) → Bytes → Bytes → Source D → Loader D → Loader D
  unfolding report report_all load_parsed
  load_source imports c spec unreadable l = report (cannot_read c) l
  load_source imports c spec (rejected ds) l = report_all ds l
  load_source imports c spec (parsed ds m) l = load_parsed imports c spec m (report_all ds l)

  -- `loadModuleFile`.
  unfoldable pub load_module_file : ℕ → List Bytes → Bytes → Bytes → Loader D → Loader D
  unfolding has cycle_from report load_source import_all
  load_module_file zero dirs path spec l = record l { exhausted = true }
  load_module_file (suc fuel) dirs path spec l =
      let c = fs.canonical path in
      let child = fs.parent c ∷ dirs in
      let imports : List Bytes → Loader D → Loader D =
        λ specs s. import_all (load_module_file fuel child) c child specs s in
      if has c l.active
      then report (circular_import (c ∷ cycle_from c l.active)) l
      else if has c l.loaded
      then l
      else load_source imports c spec (fs.source c) (record l { loaded = c ∷ l.loaded })

  -- `processImports`, up to the place of the declarations: in front of those of the unit.
  unfoldable pub process_imports : ℕ → Bytes → List Bytes → List Bytes → Loader D → Loader D
  unfolding is_blank import_all load_module_file
  process_imports fuel importer_dir dirs specs l =
      let local_dirs = if is_blank importer_dir then dirs else importer_dir ∷ dirs in
      import_all (load_module_file fuel local_dirs) [] local_dirs specs l

-- The loader that `processImports` begins with.
abbrev pub start_loader : {D : Type 0} → List Bytes → Loader D
start_loader loaded = record {
  loaded = loaded;
  active = [];
  out = [];
  errors = [];
  exhausted = false;
}
