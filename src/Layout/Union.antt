-- ===== src/Layout/Union.antt =====
-- src/ast/LayoutBuilder.cpp: `buildUnion`, up to the types of its block: the member with the greatest alignment and the
-- bytes that fill the block up.
pub mod Holds
use my_llvm_c.Prelude.{
  ℕ, ◌+◌, ◌-◌, ◌*◌, ◌%◌, ◌≤◌, ◌<◌, max, ◌≡◌, refl, sym, ap, Bool, true, false, not, ◌&&◌, List, [],
  ◌∷◌, subst, ◌∙◌, Option, none, some, ltb, ◌==◌, ==_iff, if◌then◌else◌, Bytes, All, All-map, arith,
}
use mathlib.Core.Option.{some-injective}
use my_llvm_c.Types.{AstType}
use my_llvm_c.Layout.{
  BitFieldLayout, Field, Measure, align_up, is_empty, is_bit_field, bit_field_storage_type,
}
use my_llvm_c.Layout.Align.{align_up-AlignsUp}

-- The local variables of the loop; `chosen` measures `alignType`, which may be null.
pub record UnionBuilder : Type 0 where
  pub max_size : ℕ
  pub max_align : ℕ
  pub chosen : Option Measure
  pub bit_fields : List (Bytes × BitFieldLayout)

unfoldable pub member_type : Field → AstType
unfolding is_bit_field bit_field_storage_type
member_type f = if is_bit_field f then bit_field_storage_type f.type else f.type

unfoldable pub add_member : Field → Measure → UnionBuilder → UnionBuilder
unfolding is_bit_field is_empty
add_member f m u = record {
  max_size = if ltb u.max_size m.bytes then m.bytes else u.max_size;
  max_align = if ltb u.max_align m.align then m.align else u.max_align;
  chosen = if ltb u.max_align m.align then some m else u.chosen;
  bit_fields =
      if is_bit_field f && not (is_empty f.name)
      then (
        f.name,
        record { unit_index = 0; bit_offset = 0; bit_width = f.bit_width; unit_bits = 0 },
      )
        ∷ u.bit_fields
      else u.bit_fields;
}

-- A member whose type has no LLVM type is passed over.
unfoldable pub add_measured : Field → Option Measure → UnionBuilder → UnionBuilder
unfolding add_member
add_measured f none u = u
add_measured f (some m) u = add_member f m u

unfoldable pub add_members : (AstType → Option Measure) → UnionBuilder → List Field → UnionBuilder
unfolding member_type add_measured
add_members measure u [] = u
add_members measure u (f ∷ rest) =
    add_members measure (add_measured f (measure (member_type f)) u) rest

unfoldable pub set_unit_bits : ℕ → List (Bytes × BitFieldLayout) → List (Bytes × BitFieldLayout)
set_unit_bits bits [] = []
set_unit_bits bits ((name, l) ∷ rest) =
    (name, record l { unit_bits = bits }) ∷ set_unit_bits bits rest

-- The block: the member that aligns it and how many bytes fill it up.
pub record UnionBlock : Type 0 where
  pub chosen : Option Measure
  pub filler : ℕ
  pub align : ℕ
  pub bit_fields : List (Bytes × BitFieldLayout)

unfoldable pub block_size : ℕ → ℕ → ℕ
unfolding align_up
block_size max_size forced =
    let size = if max_size == 0 then 1 else max_size in
    if forced == 0 then size else align_up size forced

-- The bytes of the block behind the member that aligns it.
unfoldable pub filler_of : Option Measure → ℕ → ℕ
filler_of none size = size
filler_of (some m) size = if ltb m.bytes size then size - m.bytes else 0

unfoldable pub finish_union : ℕ → UnionBuilder → UnionBlock
unfolding set_unit_bits block_size filler_of
finish_union forced u =
    let size = block_size u.max_size forced in
    record {
      chosen = u.chosen;
      filler = filler_of u.chosen size;
      align = if forced == 0 then u.max_align else max u.max_align forced;
      bit_fields = elim u.chosen [
        | none ↦ u.bit_fields
        | some m ↦ set_unit_bits (m.bytes * 8) u.bit_fields
      ];
    }

abbrev pub empty_union : UnionBuilder
empty_union = record { max_size = 0; max_align = 0; chosen = none; bit_fields = [] }

unfoldable pub build_union : (AstType → Option Measure) → ℕ → List Field → UnionBlock
unfolding add_members finish_union
build_union measure forced members = finish_union forced (add_members measure empty_union members)

-- The bytes of the block.
unfoldable pub block_of : Option Measure → ℕ → ℕ
block_of none n = n
block_of (some m) n = m.bytes + n

unfoldable pub block_bytes : UnionBlock → ℕ
unfolding block_of
block_bytes b = block_of b.chosen b.filler
