-- ===== src/Layout/BitFields/Whole.antt =====
-- src/ast/LayoutBuilder.cpp: every step of `buildAggregate` keeps the bit-fields apart.
use my_llvm_c.Prelude.{
  ℕ, ◌-◌, ◌*◌, ◌≤◌, max, ◌≡◌, inl, refl, Bool, true, false, List, [], ◌∷◌, ◌++◌, Option, none, some,
  ltb, ◌==◌, if◌then◌else◌, All, All-map,
}
use my_llvm_c.Types.{AstType}
use my_llvm_c.Layout.{
  Field, Measure, padding, Annotations, Builder, align_up, flush_unit, pad_to, close_region,
  add_to_unit, add_field, is_bit_field, bit_field_storage_type, add, add_all, start, finish,
  build_aggregate,
}
use my_llvm_c.Layout.BitFields.{Fits, IsFit, Fits-append, choose-IsFit}
use my_llvm_c.Layout.BitFields.Region.{IsRecorded, close_region-IsFit, add_packed-IsFit}
use my_llvm_c.Layout.BitFields.Region.Unit.{add_to_unit-IsFit, add_field-IsFit}

-- A field that is wider than its type is refused before: a bit-field has at most the bits of its storage.
abbrev pub HasWidth : (AstType → Option Measure) → Field → Type 0
HasWidth measure f =
    (m : Measure) → measure (bit_field_storage_type f.type) ≡ some m → f.bit_width ≤ m.bytes * 8

module _ (measure : AstType → Option Measure) (notes : Annotations) where
  measured :
      (t : AstType) (b : Builder) (f : Measure → Builder)
      → IsFit b
      → ((m : Measure) → measure t ≡ some m → IsFit (f m))
      → IsFit (elim (measure t) [ none ↦ b | some m ↦ f m ])
  measured t b f h k = cases (measure t) k
    where
      cases :
          (o : Option Measure)
          → ((m : Measure) → o ≡ some m → IsFit (f m))
          → IsFit (elim o [ none ↦ b | some m ↦ f m ])
      cases none r = h
      cases (some m) r = r m refl

  add-IsFit :
      (b : Builder) (f : Field) → HasWidth measure f → IsFit b → IsFit (add measure notes b f)
  unfolding add
  add-IsFit b f w h =
      let storage = bit_field_storage_type f.type in
      let r = flush_unit (close_region b) in
      let k = (close_region-IsFit b h).1 in
      choose-IsFit (is_bit_field f) _ _
        (choose-IsFit notes.is_packed _ _ (add_packed-IsFit f (measure storage) b h) (
          measured storage b (λ m. add_to_unit f m b) h (λ m e. add_to_unit-IsFit f m b (w m e) h)))
        (measured f.type r (λ m. add_field notes f m r) k (λ m e. add_field-IsFit notes f m r k))

  add_all-IsFit :
      (b : Builder) (fs : List Field)
      → All (HasWidth measure) fs
      → IsFit b
      → IsFit (add_all measure notes b fs)
  unfolding add_all
  add_all-IsFit b [] w h = h
  add_all-IsFit b (f ∷ fs) w h = add_all-IsFit (add measure notes b f) fs w.1 (add-IsFit b f w.0 h)

start-IsFit : (n : Annotations) (base : Option Measure) → IsFit (start n base)
unfolding start
start-IsFit n base = record {
  fits = tt;
  apart = tt;
  current = inl refl;
  waiting = inl (refl, refl);
}

pad_to-IsRecorded : (off : ℕ) (b : Builder) → IsRecorded b → IsRecorded (pad_to off b)
unfolding pad_to
pad_to-IsRecorded off b h = choose (ltb b.cursor off)
  where
    choose :
        (c : Bool)
        → IsRecorded (
            if c
            then record b { padded = b.padded ++ padding (off - b.cursor) ∷ []; cursor = off }
            else b)
    choose false = h
    choose true = record {
      fits =
          All-map (Fits b.padded) (Fits (b.padded ++ padding (off - b.cursor) ∷ [])) b.bit_fields
            (Fits-append b.padded (padding (off - b.cursor) ∷ [])) h.fits;
      apart = h.apart;
    }

-- Bit-fields that are no wider than their storage lie inside the slots that the layout names for them, and no two of
-- them share a bit: each begins behind the end of those recorded before it, or in a later slot.
pub build_aggregate-IsRecorded :
    (measure : AstType → Option Measure) (notes : Annotations) (base : Option Measure)
    (fs : List Field)
    → All (HasWidth measure) fs
    → IsRecorded (build_aggregate measure notes base fs)
unfolding build_aggregate finish
build_aggregate-IsRecorded measure notes base fs w =
    let b = add_all measure notes (start notes base) fs in
    let c = close_region b in
    let h =
      (close_region-IsFit b
        (add_all-IsFit measure notes (start notes base) fs w (start-IsFit notes base))).0 in
    let a =
      if notes.forced_align == 0 then c.struct_align else max c.struct_align notes.forced_align in
    let k = pad_to-IsRecorded (align_up c.cursor a) c h in record { fits = k.fits; apart = k.apart }
