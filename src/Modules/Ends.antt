-- ===== src/Modules/Ends.antt =====
-- src/driver/ModuleLoader.cpp: loading ends, since each module that is entered is a file that was not loaded yet.
use my_llvm_c.Prelude.{
  ℕ, zero, suc, ◌+◌, ◌≤◌, ◌<◌, ◌≡◌, inl, inr, refl, ap, ◌∙◌, Bool, true, false, ◌||◌, List, [], ◌∷◌,
  Option, none, some, if◌then◌else◌, Bool-cases, length, Bytes, bytes_eq, arith,
}
use my_llvm_c.Types.Equal.Canonical.{bytes_eq_refl, bytes_eq_eq}
use my_llvm_c.Mangle.{has}
use my_llvm_c.Modules.{
  Loader, Files, Source, unreadable, rejected, parsed, circular_import, cannot_resolve, report,
  report_all, enter, leave, append_module, is_misnamed, is_legacy_smc_specifier, resolve_import,
  cycle_from, import_one, import_all, load_parsed, load_source, load_module_file, process_imports,
  start_loader, is_blank,
}

abbrev missing : Bool → ℕ
missing true = 0
missing false = 1

-- How many of the files are not loaded.
abbrev unloaded : List Bytes → List Bytes → ℕ
unloaded [] loaded = 0
unloaded (f ∷ files) loaded = missing (has f loaded) + unloaded files loaded

one_less :
    (c f : Bytes) (loaded : List Bytes) → missing (has f (c ∷ loaded)) ≤ missing (has f loaded)
unfolding has
one_less c f loaded = elim (Bool-cases (has f loaded)) [
  | inr n ↦ rw n (most (bytes_eq c f || false))
  | inl h ↦ rw h (zero_of (bytes_eq c f))
]
  where
    most : (b : Bool) → missing b ≤ 1
    most true = omega arith
    most false = omega arith

    zero_of : (b : Bool) → missing (b || true) ≤ 0
    zero_of true = omega arith
    zero_of false = omega arith

unloaded-le :
    (files : List Bytes) (c : Bytes) (loaded : List Bytes)
    → unloaded files (c ∷ loaded) ≤ unloaded files loaded
unloaded-le [] c loaded = omega arith
unloaded-le (f ∷ files) c loaded = omega (arith, one_less c f loaded, unloaded-le files c loaded)

unloaded-lt :
    (files : List Bytes) (c : Bytes) (loaded : List Bytes)
    → has c files ≡ true
    → has c loaded ≡ false
    → unloaded files (c ∷ loaded) < unloaded files loaded
unfolding has
unloaded-lt [] c loaded h n = absurd (cc)
unloaded-lt (f ∷ files) c loaded h n = elim (Bool-cases (bytes_eq f c)) [
  | inl e ↦
      let same = bytes_eq_eq f c e in
      let old : missing (has f loaded) ≡ 1 = ap missing (ap (λ x. has x loaded) same ∙ n) in
      let new : missing (has f (c ∷ loaded)) ≡ 0 =
        rw (ap (bytes_eq c) same ∙ bytes_eq_refl c) refl in
      omega (arith, old, new, unloaded-le files c loaded)
  | inr d ↦ omega (
    arith,
    one_less c f loaded,
    unloaded-lt files c loaded (later (bytes_eq f c) (has c files) d h) n,
  )
]
  where
    later : (a b : Bool) → a ≡ false → (a || b) ≡ true → b ≡ true
    later true b d h = absurd (cc)
    later false b d h = h

-- Every import that is resolved names one of the files.
abbrev pub FilesKnown : {D : Type 0} → Files D → List Bytes → Type 0
FilesKnown fs files =
    (spec : Bytes) (dirs : List Bytes) (path : Bytes)
    → resolve_import fs spec dirs ≡ some path
    → has (fs.canonical path) files ≡ true

module _ {D : Type 0} (fs : Files D) (files : List Bytes) (known : FilesKnown fs files) where
  -- A step that has not run out of steps, and unloads nothing.
  record Goes (l k : Loader D) : Type 0 where
    goes : k.exhausted ≡ l.exhausted
    left : unloaded files k.loaded ≤ unloaded files l.loaded

  choose-Goes : (b : Bool) (l x y : Loader D) → Goes l x → Goes l y → Goes l (if b then x else y)
  choose-Goes true l x y h k = h
  choose-Goes false l x y h k = k

  -- What a loader of files does while fewer than `n` are unloaded.
  abbrev Loads : ℕ → (Bytes → Bytes → Loader D → Loader D) → Type 0
  Loads n load =
      (path spec : Bytes) (l : Loader D)
      → has (fs.canonical path) files ≡ true
      → unloaded files l.loaded < n
      → Goes l (load path spec l)

  module _ (n : ℕ) (load : Bytes → Bytes → Loader D → Loader D) (loads : Loads n load) where
    import_one-Goes :
        (from : Bytes) (dirs : List Bytes) (spec : Bytes) (l : Loader D)
        → unloaded files l.loaded < n
        → Goes l (import_one fs load from dirs spec l)
    unfolding import_one report
    import_one-Goes from dirs spec l h =
        choose-Goes (is_legacy_smc_specifier spec) l _ _
          (record { goes = refl; left = omega arith })
          (found (resolve_import fs spec dirs) (known spec dirs))
      where
        found :
            (o : Option Bytes)
            → ((path : Bytes) → o ≡ some path → has (fs.canonical path) files ≡ true)
            → Goes l (elim o [
              | none ↦ report fs (cannot_resolve from spec) l
              | some path ↦ load path spec l
            ])
        found none k = record { goes = refl; left = omega arith }
        found (some path) k = loads path spec l (k path refl) h

    import_all-Goes :
        (from : Bytes) (dirs specs : List Bytes) (l : Loader D)
        → unloaded files l.loaded < n
        → Goes l (import_all fs load from dirs specs l)
    unfolding import_all
    import_all-Goes from dirs [] l h = record { goes = refl; left = omega arith }
    import_all-Goes from dirs (spec ∷ rest) l h =
        let one = import_one-Goes from dirs spec l h in
        let all =
          import_all-Goes from dirs rest (import_one fs load from dirs spec l)
            (omega (arith, h, one.left)) in
        record { goes = all.goes ∙ one.goes; left = omega (arith, all.left, one.left) }

  load_source-Goes :
      (imports : List Bytes → Loader D → Loader D) (c spec : Bytes) (o : Source D) (l : Loader D)
      → ((specs : List Bytes) (k : Loader D)
          → unloaded files k.loaded ≤ unloaded files l.loaded
          → Goes k (imports specs k))
      → Goes l (load_source fs imports c spec o l)
  unfolding load_source load_parsed report report_all enter leave append_module
  load_source-Goes imports c spec unreadable l g = record { goes = refl; left = omega arith }
  load_source-Goes imports c spec (rejected ds) l g = record { goes = refl; left = omega arith }
  load_source-Goes imports c spec (parsed ds m) l g =
      choose-Goes (is_misnamed fs spec m) l _ _ (record { goes = refl; left = omega arith })
        (let k = g m.imports (enter fs c (report_all fs ds l)) (omega arith) in
          record { goes = k.goes; left = k.left })

  load_module_file-Goes :
      (fuel : ℕ) (dirs : List Bytes) → Loads fuel (load_module_file fs fuel dirs)
  unfolding load_module_file report
  load_module_file-Goes zero dirs path spec l k h = elim h [ ]
  load_module_file-Goes (suc fuel) dirs path spec l k h =
      cases (load_module_file-Goes fuel) (fs.canonical path) k (has (fs.canonical path) l.active)
        (has (fs.canonical path) l.loaded) refl
    where
      child : Bytes → List Bytes
      child c = fs.parent c ∷ dirs

      imports : Bytes → List Bytes → Loader D → Loader D
      imports c specs s = import_all fs (load_module_file fs fuel (child c)) c (child c) specs s

      cases :
          ((ds : List Bytes) → Loads fuel (load_module_file fs fuel ds))
          → (c : Bytes) → has c files ≡ true
          → (a b : Bool) → has c l.loaded ≡ b
          → Goes l (
              if a
              then report fs (circular_import (c ∷ cycle_from c l.active)) l
              else if b
              then l
              else load_source fs
                  (imports c)
                  c
                  spec
                  (fs.source c)
                  (record l { loaded = c ∷ l.loaded }))
      cases inner c known_c true b e = record { goes = refl; left = omega arith }
      cases inner c known_c false true e = record { goes = refl; left = omega arith }
      cases inner c known_c false false e =
          let less = unloaded-lt files c l.loaded known_c e in
          let r =
            load_source-Goes (imports c) c spec (fs.source c) (record l { loaded = c ∷ l.loaded })
              (λ specs s u.
                import_all-Goes fuel (load_module_file fs fuel (child c)) (inner (child c)) c
                  (child c) specs s (omega (arith, u, less, h))) in
          record { goes = r.goes; left = omega (arith, r.left, less) }

-- If the imports lead to the files of a list only, one step more than there are files is enough for every unit, with
-- modules that import each other too.
pub process_imports-finishes :
    {D : Type 0} (fs : Files D) (files : List Bytes) (dir : Bytes) (dirs specs loaded : List Bytes)
    → FilesKnown fs files
    → (process_imports fs (suc (length files)) dir dirs specs (start_loader loaded)).exhausted
      ≡ false
unfolding process_imports
process_imports-finishes fs files dir dirs specs loaded known =
    let local_dirs = if is_blank dir then dirs else dir ∷ dirs in
    (import_all-Goes fs files known (suc (length files))
      (load_module_file fs (suc (length files)) local_dirs)
      (load_module_file-Goes fs files known (suc (length files)) local_dirs) [] local_dirs specs
      (start_loader loaded) (few files loaded)).goes
  where
    few : (files loaded : List Bytes) → unloaded files loaded < suc (length files)
    few [] loaded = omega arith
    few (f ∷ files) loaded = omega (arith, few files loaded, most (has f loaded))
      where
        most : (b : Bool) → missing b ≤ 1
        most true = omega arith
        most false = omega arith
