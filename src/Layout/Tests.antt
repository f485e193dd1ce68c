-- ===== src/Layout/Tests.antt =====
-- Runs of the layouts.
use my_llvm_c.Prelude.{
  subst, sym, ℕ, ◌*◌, ◌≤◌, ◌≡◌, refl, false, List, [], ◌∷◌, Option, none, some, All, codes, arith,
}
use mathlib.Core.Option.{some-injective}
use my_llvm_c.Types.{AstType, BasicKind, basic, kind_int8, kind_int32, kind_int64, plain, int32}
use my_llvm_c.Layout.{Annotations, Field, Measure, bit_field_storage_type, build_aggregate}
use my_llvm_c.Layout.BitFields.Region.{IsRecorded}
use my_llvm_c.Layout.BitFields.Whole.{HasWidth, build_aggregate-IsRecorded}
use my_llvm_c.Layout.Union.Holds.{Holds}

-- A target with 4-byte and 8-byte integers, on which every other type is a byte.
abbrev kind_measure : BasicKind → Measure
kind_measure kind_int32 = record { bytes = 4; align = 4 }
kind_measure kind_int64 = record { bytes = 8; align = 8 }
kind_measure _ = record { bytes = 1; align = 1 }

abbrev measure : AstType → Option Measure
measure (basic q k) = some (kind_measure k)
measure _ = none

abbrev notes : Annotations
notes = record { is_packed = false; forced_align = 16; field_aligns = [] }

-- `int8 tag; int32 a : 3; int32 b : 7; int64 big`.
abbrev fields : List Field
fields =
    record { name = codes "tag"; type = basic plain kind_int8; bit_width = 0 }
    ∷ record { name = codes "a"; type = int32; bit_width = 3 }
    ∷ record { name = codes "b"; type = int32; bit_width = 7 }
    ∷ record { name = codes "big"; type = basic plain kind_int64; bit_width = 0 }
    ∷ []

offsets : (build_aggregate measure notes none fields).target_offsets ≡ 0 ∷ 8 ∷ []
unfolding build_aggregate
offsets = refl

size : (build_aggregate measure notes none fields).cursor ≡ 16
unfolding build_aggregate
size = refl

width_fits : (w b : ℕ) (x m : Measure) → x.bytes ≡ b → w ≤ b * 8 → some x ≡ some m → w ≤ m.bytes * 8
width_fits w b x m e l s =
    subst (λ y. w ≤ y.bytes * 8) (some-injective x m s) (subst (λ n. w ≤ n * 8) (sym e) l)

fields-HasWidth : All (HasWidth measure) fields
unfolding bit_field_storage_type
fields-HasWidth = (
  λ m e. width_fits 0 1 (record { bytes = 1; align = 1 }) m refl (omega arith) e,
  (
    λ m e. width_fits 3 4 (record { bytes = 4; align = 4 }) m refl (omega arith) e,
    (
      λ m e. width_fits 7 4 (record { bytes = 4; align = 4 }) m refl (omega arith) e,
      (λ m e. width_fits 0 8 (record { bytes = 8; align = 8 }) m refl (omega arith) e, tt),
    ),
  ),
)

build_aggregate-IsRecorded_example : IsRecorded (build_aggregate measure notes none fields)
build_aggregate-IsRecorded_example =
    build_aggregate-IsRecorded measure notes none fields fields-HasWidth
