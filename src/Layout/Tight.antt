-- ===== src/Layout/Tight.antt =====
-- src/ast/LayoutBuilder.cpp: the slots of an aggregate lie one behind another, each aligned.
pub mod Whole
use my_llvm_c.Prelude.{
  ℕ, ◌+◌, ◌-◌, ◌*◌, ◌%◌, ◌≤◌, ◌<◌, max, ◌≡◌, inl, inr, refl, sym, ap, ap₂, subst, ◌∙◌, Bool, true,
  false, not, ◌||◌, ◌&&◌, List, [], ◌∷◌, ◌++◌, Option, none, some, ltb, ◌==◌, if◌then◌else◌,
  Bool-cases, arith, append-nil, append_assoc,
}
use my_llvm_c.Types.{AstType}
use my_llvm_c.Layout.{
  PendingBf, Field, Measure, Slot, unit_slot, padding, region, field_slot, slot_bytes, Annotations,
  Builder, align_up, flush_unit, pad_to, push, region_size, settle_region, close_region,
  open_region, add_packed, new_unit, take_bits, add_to_unit, find_align, field_align, raises_align,
  add_field, is_empty, is_bit_field, bit_field_storage_type, add, add_all, start, finish,
  build_aggregate,
}
use my_llvm_c.Layout.Align.{align_up-AlignsUp}

unfoldable pub total : List Slot → ℕ
unfolding slot_bytes
total [] = 0
total (s ∷ rest) = slot_bytes s + total rest

-- A slot that begins at `at`.
abbrev pub Aligned : ℕ → Slot → Type 0
Aligned at (unit_slot m) = at % m.align ≡ 0
Aligned at (field_slot f m) = at % m.align ≡ 0
Aligned at _ = Unit

-- The slots one behind another from `at` on.
abbrev pub AllAligned : ℕ → List Slot → Type 0
AllAligned at [] = Unit
AllAligned at (s ∷ rest) = Aligned at s × AllAligned (at + slot_bytes s) rest

-- Where a slot of a field begins.
abbrev pub start_of : ℕ → Slot → List ℕ
start_of at (field_slot f m) = at ∷ []
start_of at _ = []

abbrev pub field_starts : ℕ → List Slot → List ℕ
field_starts at [] = []
field_starts at (s ∷ rest) = start_of at s ++ field_starts (at + slot_bytes s) rest

total-snoc : (l : List Slot) (s : Slot) → total (l ++ s ∷ []) ≡ total l + slot_bytes s
unfolding total
total-snoc [] s = omega arith
total-snoc (x ∷ l) s = omega (arith, total-snoc l s)

AllAligned-snoc :
    (at : ℕ) (l : List Slot) (s : Slot)
    → AllAligned at l
    → Aligned (at + total l) s
    → AllAligned at (l ++ s ∷ [])
unfolding total
AllAligned-snoc at [] s h k = (subst (λ n. Aligned n s) (omega arith) k, tt)
AllAligned-snoc at (x ∷ l) s h k =
    (h.0, AllAligned-snoc (at + slot_bytes x) l s h.1 (subst (λ n. Aligned n s) (omega arith) k))

field_starts-snoc :
    (at : ℕ) (l : List Slot) (s : Slot)
    → field_starts at (l ++ s ∷ []) ≡ field_starts at l ++ start_of (at + total l) s
unfolding total
field_starts-snoc at [] s = append-nil (start_of at s) ∙ ap (λ n. start_of n s) (omega arith)
field_starts-snoc at (x ∷ l) s =
    ap (λ r. start_of at x ++ r)
      (field_starts-snoc (at + slot_bytes x) l s
        ∙ ap (λ n. field_starts (at + slot_bytes x) l ++ start_of n s) (omega arith))
    ∙ sym (
        append_assoc (start_of at x) (field_starts (at + slot_bytes x) l)
          (start_of (at + (slot_bytes x + total l)) s))

-- What holds between the rounds of the loop.
pub record IsLaid (b : Builder) : Type 0 where
  pub tight : total b.padded ≡ b.cursor
  pub aligned : AllAligned 0 b.padded
  pub offsets : field_starts 0 b.padded ≡ b.target_offsets
  pub positive : 0 < b.struct_align

-- Builders that differ in other variables only.
pub same_slots-IsLaid :
    (b c : Builder)
    → b.padded ≡ c.padded
    → b.cursor ≡ c.cursor
    → b.target_offsets ≡ c.target_offsets
    → 0 < c.struct_align
    → IsLaid b
    → IsLaid c
same_slots-IsLaid b c p q r l h = record {
  tight = ap total (sym p) ∙ h.tight ∙ q;
  aligned = subst (AllAligned 0) p h.aligned;
  offsets = ap (field_starts 0) (sym p) ∙ h.offsets ∙ r;
  positive = l;
}

pub push-tight :
    (s : Slot) (b : Builder) → IsLaid b → total (b.padded ++ s ∷ []) ≡ b.cursor + slot_bytes s
push-tight s b h = total-snoc b.padded s ∙ ap (λ t. t + slot_bytes s) h.tight

at_cursor : (b : Builder) → IsLaid b → 0 + total b.padded ≡ b.cursor
at_cursor b h = omega (arith, h.tight)

pub push-AllAligned :
    (s : Slot) (b : Builder) → IsLaid b → Aligned b.cursor s → AllAligned 0 (b.padded ++ s ∷ [])
push-AllAligned s b h a =
    AllAligned-snoc 0 b.padded s h.aligned (subst (λ t. Aligned t s) (sym (at_cursor b h)) a)

pub push-offsets :
    (s : Slot) (b : Builder)
    → IsLaid b
    → field_starts 0 (b.padded ++ s ∷ []) ≡ b.target_offsets ++ start_of b.cursor s
push-offsets s b h =
    field_starts-snoc 0 b.padded s ∙ ap₂ (λ l t. l ++ start_of t s) h.offsets (at_cursor b h)

pub push-IsLaid :
    (s : Slot) (b : Builder)
    → IsLaid b
    → Aligned b.cursor s
    → start_of b.cursor s ≡ []
    → IsLaid (push s b)
unfolding push
push-IsLaid s b h a n = record {
  tight = push-tight s b h;
  aligned = push-AllAligned s b h a;
  offsets = push-offsets s b h ∙ ap (λ l. b.target_offsets ++ l) n ∙ append-nil b.target_offsets;
  positive = h.positive;
}

pub pad_to-cursor : (off : ℕ) (b : Builder) → b.cursor ≤ off → (pad_to off b).cursor ≡ off
unfolding pad_to
pad_to-cursor off b h = elim (Bool-cases (ltb b.cursor off)) [
  | inl l ↦ rw l refl
  | inr l ↦ rw l (equal b.cursor off h l)
]
  where
    equal : (c o : ℕ) → c ≤ o → ltb c o ≡ false → c ≡ o
    equal c o h l = ground arith

pub pad_to-IsLaid : (off : ℕ) (b : Builder) → IsLaid b → IsLaid (pad_to off b)
unfolding pad_to slot_bytes
pad_to-IsLaid off b h = elim (Bool-cases (ltb b.cursor off)) [
  | inl l ↦ rw l (record {
    tight =
        total-snoc b.padded (padding (off - b.cursor))
        ∙ reaches (total b.padded) b.cursor off h.tight l;
    aligned = AllAligned-snoc 0 b.padded (padding (off - b.cursor)) h.aligned tt;
    offsets =
        field_starts-snoc 0 b.padded (padding (off - b.cursor))
        ∙ append-nil (field_starts 0 b.padded)
        ∙ h.offsets;
    positive = h.positive;
  })
  | inr l ↦ rw l h
]
  where
    reaches : (t c o : ℕ) → t ≡ c → ltb c o ≡ true → t + slot_bytes (padding (o - c)) ≡ o
    reaches t c o e l = ground arith
