-- ===== src/Layout.antt =====
-- src/ast/LayoutBuilder.cpp: the layout of annotated structures and classes, and of unions. How many bytes a type takes
-- and how it is aligned is LLVM's answer, a parameter; `none` stands for a type that has no LLVM type.
mod Tests
pub mod Align
pub mod Tight
pub mod BitFields
pub mod Union
use my_llvm_c.Prelude.{
  ℕ, zero, suc, ◌+◌, ◌-◌, ◌*◌, ◌/◌, max, Bool, true, false, ◌&&◌, ◌||◌, not, List, [], ◌∷◌, ◌++◌,
  Option, none, some, ltb, leb, ◌==◌, if◌then◌else◌, length, Bytes, bytes_eq,
}
use my_llvm_c.Types.{AstType, null, basic, kind_bool, kind_int8, plain}

-- `alignUp`.
unfoldable pub align_up : ℕ → ℕ → ℕ
align_up v a = if a == 0 then v else (v + a - 1) / a * a

-- `FieldInfo` as far as it is read. A width is not negative, which sema checks.
pub record Field : Type 0 where
  pub name : Bytes
  pub type : AstType
  pub bit_width : ℕ

pub record Measure : Type 0 where
  pub bytes : ℕ
  pub align : ℕ

-- An element of the list that is laid down: the base, padding, the bytes of a region of packed bit-fields, the unit of
-- bit-fields, or a field with the alignment asked for.
pub data Slot : Type 0 where
  base_slot unit_slot : Measure → Slot
  padding region : ℕ → Slot
  field_slot : Field → Measure → Slot

unfoldable pub slot_bytes : Slot → ℕ
slot_bytes (base_slot m) = m.bytes
slot_bytes (unit_slot m) = m.bytes
slot_bytes (padding n) = n
slot_bytes (region n) = n
slot_bytes (field_slot f m) = m.bytes

pub record BitFieldLayout : Type 0 where
  pub unit_index : ℕ
  pub bit_offset : ℕ
  pub bit_width : ℕ
  pub unit_bits : ℕ

pub record PendingBf : Type 0 where
  pub name : Bytes
  pub bit_offset : ℕ
  pub bit_width : ℕ

-- The annotations: packed, the forced alignment or 0, and the alignments of fields.
pub record Annotations : Type 0 where
  pub is_packed : Bool
  pub forced_align : ℕ
  pub field_aligns : List (Bytes × ℕ)

-- The local variables of the loop.
pub record Builder : Type 0 where
  pub padded : List Slot
  pub cursor : ℕ
  pub struct_align : ℕ
  -- The unit: its bytes, 0 if there is none, the bits used and its place.
  pub unit_bytes : ℕ
  pub bit_used : ℕ
  pub unit_index : ℕ
  -- The region of packed bit-fields.
  pub region_active : Bool
  pub region_bits : ℕ
  pub pending : List PendingBf
  -- What has been recorded, the last first.
  pub bit_fields : List (Bytes × BitFieldLayout)
  pub target_offsets : List ℕ

-- `bitFieldStorageType`.
unfoldable pub bit_field_storage_type : AstType → AstType
bit_field_storage_type (basic q kind_bool) = basic plain kind_int8
bit_field_storage_type t = t

unfoldable pub is_empty : Bytes → Bool
is_empty [] = true
is_empty (c ∷ name) = false

unfoldable pub is_bit_field : Field → Bool
unfolding is_empty
is_bit_field f = not (f.bit_width == 0) || is_empty f.name

-- `hasBitFields`.
unfoldable pub has_bit_fields : List Field → Bool
unfolding is_bit_field
has_bit_fields [] = false
has_bit_fields (f ∷ rest) = is_bit_field f || has_bit_fields rest

unfoldable pub flush_unit : Builder → Builder
flush_unit b = record b { unit_bytes = 0; bit_used = 0 }

-- The padding up to `off`, if there is room.
unfoldable pub pad_to : ℕ → Builder → Builder
pad_to off b =
    if ltb b.cursor off
    then record b { padded = b.padded ++ padding (off - b.cursor) ∷ []; cursor = off }
    else b

-- A slot at the cursor, which moves behind it.
unfoldable pub push : Slot → Builder → Builder
unfolding slot_bytes
push s b = record b { padded = b.padded ++ s ∷ []; cursor = b.cursor + slot_bytes s }

unfoldable pub region_size : ℕ → ℕ
region_size bits = let n = (bits + 7) / 8 in if n == 0 then 1 else n

-- The bit-fields of a region that ends, at the index and with the bits of its slot.
unfoldable pub settle :
    ℕ → ℕ → List PendingBf → List (Bytes × BitFieldLayout) → List (Bytes × BitFieldLayout)
settle index bits [] known = known
settle index bits (p ∷ rest) known = settle index bits rest (
    (
      p.name,
      record {
        unit_index = index;
        bit_offset = p.bit_offset;
        bit_width = p.bit_width;
        unit_bits = bits;
      },
    )
    ∷ known)

unfoldable pub settle_region : ℕ → Builder → Builder
unfolding settle push
settle_region size b = record (push (region size) b) {
  region_active = false;
  bit_fields = settle (length b.padded) (size * 8) b.pending b.bit_fields;
  pending = [];
}

-- `closeRegion`.
unfoldable pub close_region : Builder → Builder
unfolding region_size settle_region
close_region b = if b.region_active then settle_region (region_size b.region_bits) b else b

unfoldable pub open_region : Builder → Builder
open_region b = if b.region_active then b else record b { region_active = true; region_bits = 0 }

-- A bit-field of a packed aggregate.
unfoldable pub add_packed : Field → Option Measure → Builder → Builder
unfolding open_region is_empty align_up
add_packed f m b =
    let r = open_region b in
    if f.bit_width == 0 && is_empty f.name
    then record r {
      region_bits = align_up r.region_bits (elim m [ none ↦ 32 | some x ↦ x.bytes * 8 ]);
    }
    else record r {
      region_bits = r.region_bits + f.bit_width;
      pending =
          if is_empty f.name
          then r.pending
          else r.pending
            ++ record { name = f.name; bit_offset = r.region_bits; bit_width = f.bit_width } ∷ [];
    }

unfoldable pub new_unit : Measure → Builder → Builder
unfolding align_up pad_to push
new_unit m b =
    let p = push (unit_slot m) (pad_to (align_up b.cursor m.align) b) in
    record p {
      unit_index = length p.padded - 1;
      unit_bytes = m.bytes;
      bit_used = 0;
      struct_align = max p.struct_align m.align;
    }

-- A bit-field takes its bits of the unit.
unfoldable pub take_bits : Field → ℕ → Builder → Builder
unfolding is_empty
take_bits f bits b = record b {
  bit_fields =
      if is_empty f.name
      then b.bit_fields
      else (
        f.name,
        record {
          unit_index = b.unit_index;
          bit_offset = b.bit_used;
          bit_width = f.bit_width;
          unit_bits = bits;
        },
      )
        ∷ b.bit_fields;
  bit_used = b.bit_used + f.bit_width;
}

unfoldable pub add_to_unit : Field → Measure → Builder → Builder
unfolding flush_unit new_unit take_bits is_empty
add_to_unit f m b =
    let bits = m.bytes * 8 in
    if f.bit_width == 0 && is_empty f.name
    then flush_unit b
    else if b.unit_bytes == 0
        || not (b.unit_bytes == m.bytes)
        || ltb bits (b.bit_used + f.bit_width)
    then take_bits f bits (new_unit m b)
    else take_bits f bits b

unfoldable pub find_align : Bytes → List (Bytes × ℕ) → Option ℕ
unfolding bytes_eq
find_align name [] = none
find_align name ((key, a) ∷ rest) =
    let later = find_align name rest in if bytes_eq key name then some a else later

-- The alignment of a field, and that of the aggregate after it.
unfoldable pub field_align : Annotations → Field → Measure → ℕ
unfolding find_align
field_align n f m =
    let own = if n.is_packed then 1 else m.align in
    elim (find_align f.name n.field_aligns) [ none ↦ own | some a ↦ max own a ]

unfoldable pub raises_align : Annotations → Field → Bool
unfolding find_align
raises_align n f =
    not n.is_packed || elim (find_align f.name n.field_aligns) [ none ↦ false | some a ↦ true ]

unfoldable pub add_field : Annotations → Field → Measure → Builder → Builder
unfolding field_align raises_align align_up pad_to push
add_field n f m b =
    let ta = field_align n f m in
    let off = align_up b.cursor ta in
    let p = push (field_slot f (record { bytes = m.bytes; align = ta })) (pad_to off b) in
    record p {
      struct_align = if raises_align n f then max p.struct_align ta else p.struct_align;
      target_offsets = p.target_offsets ++ off ∷ [];
    }

module _ (measure : AstType → Option Measure) (notes : Annotations) where
  -- A round of the loop.
  unfoldable pub add : Builder → Field → Builder
  unfolding is_bit_field bit_field_storage_type add_packed add_to_unit close_region flush_unit
      add_field
  add b f =
      let storage = measure (bit_field_storage_type f.type) in
      if is_bit_field f
      then (if notes.is_packed
          then add_packed f storage b
          else elim storage [ none ↦ b | some m ↦ add_to_unit f m b ])
      else let r = flush_unit (close_region b) in
        elim (measure f.type) [ none ↦ r | some m ↦ add_field notes f m r ]

  unfoldable pub add_all : Builder → List Field → Builder
  unfolding add
  add_all b [] = b
  add_all b (f ∷ rest) = add_all (add b f) rest

unfoldable pub start : Annotations → Option Measure → Builder
start n base = record {
  padded = elim base [ none ↦ [] | some m ↦ base_slot m ∷ [] ];
  cursor = elim base [ none ↦ 0 | some m ↦ m.bytes ];
  struct_align = elim base [ none ↦ 1 | some m ↦ if n.is_packed then 1 else max 1 m.align ];
  unit_bytes = 0;
  bit_used = 0;
  unit_index = 0;
  region_active = false;
  region_bits = 0;
  pending = [];
  bit_fields = [];
  target_offsets = [];
}

-- The end of the loop: the forced alignment and the tail padding.
unfoldable pub finish : Annotations → Builder → Builder
unfolding close_region align_up pad_to
finish n b =
    let c = close_region b in
    let a = if n.forced_align == 0 then c.struct_align else max c.struct_align n.forced_align in
    record (pad_to (align_up c.cursor a) c) { struct_align = a }

-- The part of `buildAggregate` that lays down the fields of an annotated aggregate, or of one with bit-fields; `base`
-- measures the base if it has one.
unfoldable pub build_aggregate :
    (AstType → Option Measure) → Annotations → Option Measure → List Field → Builder
unfolding start add_all finish
build_aggregate measure n base fields = finish n (add_all measure n (start n base) fields)
