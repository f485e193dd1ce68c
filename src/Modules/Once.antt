-- ===== src/Modules/Once.antt =====
-- src/driver/ModuleLoader.cpp: `loadModuleFile` appends no module twice, and keeps the stack of modules.
use my_llvm_c.Prelude.{
  ℕ, zero, suc, ◌≡◌, inl, inr, refl, sym, ap, subst, ◌∙◌, Bool, true, false, ◌||◌, List, [], ◌∷◌,
  map, Option, none, some, if◌then◌else◌, Bool-cases, drop, All, All-map, Bytes, bytes_eq,
}
use my_llvm_c.Types.Equal.Canonical.{bytes_eq_refl, bytes_eq_eq}
use my_llvm_c.Mangle.{has}
use my_llvm_c.Modules.{
  Loader, Files, Source, ModuleAst, unreadable, rejected, parsed, LoadError, name_mismatch,
  cannot_read, circular_import, legacy_source, cannot_resolve, report, report_all, enter, leave,
  append_module, is_misnamed, is_legacy_smc_specifier, resolve_import, specifier_to_module_name,
  cycle_from, import_one, import_all, load_parsed, load_source, load_module_file, process_imports,
  start_loader, is_blank,
}

abbrev pub Distinct : List Bytes → Type 0
Distinct [] = Unit
Distinct (x ∷ xs) = (has x xs ≡ false) × Distinct xs

abbrev pub emitted : {D : Type 0} → Loader D → List Bytes
emitted l = map (λ m. m.0) l.out

-- What holds between the calls: modules are appended once and only if they are loaded; the modules on the stack are
-- loaded, stand on it once, and are not appended yet.
pub record IsOnce (D : Type 0) (l : Loader D) : Type 0 where
  pub distinct : Distinct (emitted l)
  pub emitted_loaded : All (λ m. has m l.loaded ≡ true) (emitted l)
  pub active_loaded : All (λ m. has m l.loaded ≡ true) l.active
  pub active_waits : All (λ m. has m (emitted l) ≡ false) l.active
  pub active_distinct : Distinct l.active

absent :
    (loaded xs : List Bytes) (c : Bytes)
    → All (λ m. has m loaded ≡ true) xs
    → has c loaded ≡ false
    → has c xs ≡ false
unfolding has
absent loaded [] c h n = refl
absent loaded (x ∷ xs) c h n = elim (Bool-cases (bytes_eq x c)) [
  | inr d ↦ rw d (absent loaded xs c h.1 n)
  | inl e ↦ absurd (clash (sym (ap (λ y. has y loaded) (bytes_eq_eq x c e)) ∙ h.0) n)
]
  where
    clash : has c loaded ≡ true → has c loaded ≡ false → ⊥
    clash t f = absurd (cc)

has-cons : (x c : Bytes) (xs : List Bytes) → has x xs ≡ true → has x (c ∷ xs) ≡ true
unfolding has
has-cons x c xs h = elim (Bool-cases (bytes_eq c x)) [ inl e ↦ rw e refl | inr e ↦ rw e h ]

has_self : (c : Bytes) (xs : List Bytes) → has c (c ∷ xs) ≡ true
unfolding has
has_self c xs = rw (bytes_eq_refl c) refl

-- A name that is not in a list, in front of which another stands.
not-cons :
    (c : Bytes) (xs es : List Bytes)
    → has c xs ≡ false
    → All (λ m. has m es ≡ false) xs
    → All (λ m. has m (c ∷ es) ≡ false) xs
unfolding has
not-cons c [] es n h = tt
not-cons c (x ∷ xs) es n h =
    let (d, r) = apart (bytes_eq x c) (has c xs) n in (rw (flip d) h.0, not-cons c xs es r h.1)
  where
    apart : (a b : Bool) → (a || b) ≡ false → (a ≡ false) × (b ≡ false)
    apart true b e = absurd (cc)
    apart false b e = (refl, e)

    flip : bytes_eq x c ≡ false → bytes_eq c x ≡ false
    flip d = elim (Bool-cases (bytes_eq c x)) [
      | inr f ↦ f
      | inl e ↦ absurd (clash (ap (bytes_eq x) (bytes_eq_eq c x e) ∙ bytes_eq_refl x) d)
    ]
      where
        clash : bytes_eq x c ≡ true → bytes_eq x c ≡ false → ⊥
        clash t f = absurd (cc)

module _ {D : Type 0} (fs : Files D) where
  -- A step that keeps this and the stack.
  record Keeps (l k : Loader D) : Type 0 where
    once : IsOnce D k
    active : k.active ≡ l.active

  report-Keeps : (e : LoadError) (l : Loader D) → IsOnce D l → Keeps l (report fs e l)
  unfolding report
  report-Keeps e l h = record {
    once = record {
      distinct = h.distinct;
      emitted_loaded = h.emitted_loaded;
      active_loaded = h.active_loaded;
      active_waits = h.active_waits;
      active_distinct = h.active_distinct;
    };
    active = refl;
  }

  report_all-Keeps : (ds : List Bytes) (l : Loader D) → IsOnce D l → Keeps l (report_all fs ds l)
  unfolding report_all
  report_all-Keeps ds l h = record {
    once = record {
      distinct = h.distinct;
      emitted_loaded = h.emitted_loaded;
      active_loaded = h.active_loaded;
      active_waits = h.active_waits;
      active_distinct = h.active_distinct;
    };
    active = refl;
  }

  choose-Keeps :
      (b : Bool) (l x y : Loader D) → Keeps l x → Keeps l y → Keeps l (if b then x else y)
  choose-Keeps true l x y h k = h
  choose-Keeps false l x y h k = k

  module _ (load : Bytes → Bytes → Loader D → Loader D)
      (keeps : (p s : Bytes) (l : Loader D) → IsOnce D l → Keeps l (load p s l)) where
    import_one-Keeps :
        (from : Bytes) (dirs : List Bytes) (spec : Bytes) (l : Loader D)
        → IsOnce D l
        → Keeps l (import_one fs load from dirs spec l)
    unfolding import_one
    import_one-Keeps from dirs spec l h =
        choose-Keeps (is_legacy_smc_specifier spec) l _ _ (report-Keeps legacy_source l h)
          (found (resolve_import fs spec dirs))
      where
        found :
            (o : Option Bytes)
            → Keeps l (elim o [
              | none ↦ report fs (cannot_resolve from spec) l
              | some path ↦ load path spec l
            ])
        found none = report-Keeps (cannot_resolve from spec) l h
        found (some path) = keeps path spec l h

    import_all-Keeps :
        (from : Bytes) (dirs specs : List Bytes) (l : Loader D)
        → IsOnce D l
        → Keeps l (import_all fs load from dirs specs l)
    unfolding import_all
    import_all-Keeps from dirs [] l h = record { once = h; active = refl }
    import_all-Keeps from dirs (spec ∷ rest) l h =
        let one = import_one-Keeps from dirs spec l h in
        let all = import_all-Keeps from dirs rest (import_one fs load from dirs spec l) one.once in
        record { once = all.once; active = all.active ∙ one.active }

  -- A module that is new, and loaded at this moment.
  record IsNew (c : Bytes) (l : Loader D) : Type 0 where
    loaded : has c l.loaded ≡ true
    waits : has c (emitted l) ≡ false
    off_stack : has c l.active ≡ false

  module _ (imports : List Bytes → Loader D → Loader D)
      (keeps : (s : List Bytes) (l : Loader D) → IsOnce D l → Keeps l (imports s l)) where
    load_parsed-Keeps :
        (c spec : Bytes) (m : ModuleAst D) (l : Loader D)
        → IsOnce D l
        → IsNew c l
        → Keeps l (load_parsed fs imports c spec m l)
    unfolding load_parsed enter leave append_module
    load_parsed-Keeps c spec m l h n =
        choose-Keeps (is_misnamed fs spec m) l _ _
          (report-Keeps (name_mismatch c m.module_name (specifier_to_module_name spec)) l h)
          (appended (imports m.imports (enter fs c l)) (keeps m.imports (enter fs c l) entered))
      where
        entered : IsOnce D (enter fs c l)
        entered = record {
          distinct = h.distinct;
          emitted_loaded = h.emitted_loaded;
          active_loaded = (n.loaded, h.active_loaded);
          active_waits = (n.waits, h.active_waits);
          active_distinct = (n.off_stack, h.active_distinct);
        }

        appended :
            (k : Loader D) → Keeps (enter fs c l) k → Keeps l (append_module fs c m (leave fs c k))
        appended k r =
            let loaded = subst (All (λ m. has m k.loaded ≡ true)) r.active r.once.active_loaded in
            let waits = subst (All (λ m. has m (emitted k) ≡ false)) r.active r.once.active_waits in
            let rest : drop 1 k.active ≡ l.active = ap (drop 1) r.active in
            record {
              once = record {
                distinct = (waits.0, r.once.distinct);
                emitted_loaded = (loaded.0, r.once.emitted_loaded);
                active_loaded = subst (All (λ m. has m k.loaded ≡ true)) (sym rest) loaded.1;
                active_waits =
                    subst (All (λ m. has m (c ∷ emitted k) ≡ false)) (sym rest)
                      (not-cons c l.active (emitted k) n.off_stack waits.1);
                active_distinct = subst Distinct (sym rest) h.active_distinct;
              };
              active = rest;
            }

    load_source-Keeps :
        (c spec : Bytes) (o : Source D) (l : Loader D)
        → IsOnce D l
        → IsNew c l
        → Keeps l (load_source fs imports c spec o l)
    unfolding load_source report_all
    load_source-Keeps c spec unreadable l h n = report-Keeps (cannot_read c) l h
    load_source-Keeps c spec (rejected ds) l h n = report_all-Keeps ds l h
    load_source-Keeps c spec (parsed ds m) l h n =
        let k =
          load_parsed-Keeps c spec m (report_all fs ds l) (report_all-Keeps ds l h).once
            (record { loaded = n.loaded; waits = n.waits; off_stack = n.off_stack }) in
        record { once = k.once; active = k.active }

  load_module_file-Keeps :
      (fuel : ℕ) (dirs : List Bytes) (path spec : Bytes) (l : Loader D)
      → IsOnce D l
      → Keeps l (load_module_file fs fuel dirs path spec l)
  unfolding load_module_file
  load_module_file-Keeps zero dirs path spec l h = record {
    once = record {
      distinct = h.distinct;
      emitted_loaded = h.emitted_loaded;
      active_loaded = h.active_loaded;
      active_waits = h.active_waits;
      active_distinct = h.active_distinct;
    };
    active = refl;
  }
  load_module_file-Keeps (suc fuel) dirs path spec l h =
      let c = fs.canonical path in
      cases (load_module_file-Keeps fuel) c (has c l.active) refl (has c l.loaded) refl
    where
      child : Bytes → List Bytes
      child c = fs.parent c ∷ dirs

      imports : Bytes → List Bytes → Loader D → Loader D
      imports c specs s = import_all fs (load_module_file fs fuel (child c)) c (child c) specs s

      seen : Bytes → Loader D
      seen c = record l { loaded = c ∷ l.loaded }

      grown :
          (c : Bytes) (xs : List Bytes)
          → All (λ m. has m l.loaded ≡ true) xs
          → All (λ m. has m (c ∷ l.loaded) ≡ true) xs
      grown c xs =
          All-map (λ m. has m l.loaded ≡ true) (λ m. has m (c ∷ l.loaded) ≡ true) xs
            (λ m. has-cons m c l.loaded)

      seen-IsOnce : (c : Bytes) → IsOnce D (seen c)
      seen-IsOnce c = record {
        distinct = h.distinct;
        emitted_loaded = grown c (emitted l) h.emitted_loaded;
        active_loaded = grown c l.active h.active_loaded;
        active_waits = h.active_waits;
        active_distinct = h.active_distinct;
      }

      cases :
          ((ds : List Bytes) (p s : Bytes) (k : Loader D)
            → IsOnce D k
            → Keeps k (load_module_file fs fuel ds p s k))
          → (c : Bytes) (a : Bool) → has c l.active ≡ a
          → (b : Bool) → has c l.loaded ≡ b
          → Keeps l (
              if a
              then report fs (circular_import (c ∷ cycle_from c l.active)) l
              else if b
              then l
              else load_source fs (imports c) c spec (fs.source c) (seen c))
      cases inner c true e b f = report-Keeps (circular_import (c ∷ cycle_from c l.active)) l h
      cases inner c false e true f = record { once = h; active = refl }
      cases inner c false e false f =
          let new : IsNew c (seen c) = record {
            loaded = has_self c l.loaded;
            waits = absent l.loaded (emitted l) c h.emitted_loaded f;
            off_stack = e;
          } in
          let k =
            load_source-Keeps (imports c)
              (λ s k q.
                import_all-Keeps (load_module_file fs fuel (child c)) (inner (child c)) c (child c)
                  s k q)
              c spec (fs.source c) (seen c) (seen-IsOnce c) new in
          record { once = k.once; active = k.active }

-- Whatever a unit imports, however the imports lead back, no module's declarations are appended twice, only loaded
-- modules are appended, and the stack of modules is empty again.
pub process_imports-IsOnce :
    {D : Type 0} (fs : Files D) (fuel : ℕ) (dir : Bytes) (dirs specs loaded : List Bytes)
    → IsOnce D (process_imports fs fuel dir dirs specs (start_loader loaded))
      × ((process_imports fs fuel dir dirs specs (start_loader loaded)).active ≡ [])
unfolding process_imports
process_imports-IsOnce fs fuel dir dirs specs loaded =
    let local_dirs = if is_blank dir then dirs else dir ∷ dirs in
    let k =
      import_all-Keeps fs (load_module_file fs fuel local_dirs)
        (load_module_file-Keeps fs fuel local_dirs) [] local_dirs specs (start_loader loaded)
        (record {
          distinct = tt;
          emitted_loaded = tt;
          active_loaded = tt;
          active_waits = tt;
          active_distinct = tt;
        }) in
    (k.once, k.active)
