-- ===== src/Layout/BitFields.antt =====
-- src/ast/LayoutBuilder.cpp: the bit-fields of an aggregate lie in their units and do not overlap.
pub mod Region
pub mod Whole
use my_llvm_c.Prelude.{
  ◌≢◌, ℕ, zero, suc, ◌+◌, ◌-◌, ◌*◌, ◌≤◌, ◌<◌, max, ◌≡◌, ◌⊎◌, inl, inr, refl, sym, ap, subst, ◌∙◌,
  Bool, true, false, not, ◌||◌, ◌&&◌, List, [], ◌∷◌, ◌++◌, Option, none, some, ltb, ◌==◌, ==_iff,
  ◌/◌, if◌then◌else◌, Bool-cases, Bytes, arith, length, get_elem?, length-append, All, All-map,
}
use my_llvm_c.Types.{AstType}
use my_llvm_c.Layout.Align.{align_up-AlignsUp}
use my_llvm_c.Layout.{
  BitFieldLayout, PendingBf, Field, Measure, Slot, unit_slot, padding, region, field_slot,
  slot_bytes, Annotations, Builder, align_up, flush_unit, pad_to, push, region_size, settle,
  settle_region, close_region, open_region, add_packed, new_unit, take_bits, add_to_unit,
  field_align, add_field, is_empty, is_bit_field, bit_field_storage_type, add, add_all, start,
  finish, build_aggregate,
}

abbrev pub Entry : Type 0
Entry = Bytes × BitFieldLayout

-- The bits of an entry are bits of the slot that it names.
pub record Fits (slots : List Slot) (e : Entry) : Type 0 where
  pub slot : Slot
  pub stands : get_elem? slots e.1.unit_index ≡ some slot
  pub bits : slot_bytes slot * 8 ≡ e.1.unit_bits
  pub inside : e.1.bit_offset + e.1.bit_width ≤ e.1.unit_bits

-- The bits end before bit `used` of the slot `index`.
abbrev pub Behind : ℕ → ℕ → Entry → Type 0
Behind index used e =
    (e.1.unit_index < index) ⊎ ((e.1.unit_index ≡ index) × (e.1.bit_offset + e.1.bit_width ≤ used))

-- Each entry begins behind those recorded before it, which follow it in the list.
abbrev pub Apart : List Entry → Type 0
Apart [] = Unit
Apart (e ∷ earlier) = All (Behind e.1.unit_index e.1.bit_offset) earlier × Apart earlier

-- Pending bit-fields from bit `at` on to bit `end`.
abbrev pub Runs : ℕ → List PendingBf → ℕ → Type 0
Runs at [] end = at ≤ end
Runs at (p ∷ rest) end = (at ≤ p.bit_offset) × Runs (p.bit_offset + p.bit_width) rest end

-- The current unit, if there is one: a slot behind which no recorded bit reaches.
abbrev pub Current : Builder → Type 0
Current b =
    (b.unit_bytes ≡ 0)
    ⊎ ((s : Slot) × (get_elem? b.padded b.unit_index ≡ some s)
        × (slot_bytes s ≡ b.unit_bytes)
        × All (Behind b.unit_index b.bit_used) b.bit_fields)

abbrev pub Pending : Builder → Type 0
Pending b =
    ((b.region_active ≡ false) × (b.pending ≡ []))
    ⊎ ((b.region_active ≡ true) × Runs 0 b.pending b.region_bits)

pub record IsFit (b : Builder) : Type 0 where
  pub fits : All (Fits b.padded) b.bit_fields
  pub apart : Apart b.bit_fields
  pub current : Current b
  pub waiting : Pending b

get_elem?-lt {ℓ} : {A : Type ℓ} (l : List A) (i : ℕ) (a : A) → get_elem? l i ≡ some a → i < length l
get_elem?-lt [] i a e = absurd (cc)
get_elem?-lt (x ∷ l) zero a e = omega arith
get_elem?-lt (x ∷ l) (suc i) a e = omega (arith, get_elem?-lt l i a e)

get_elem?-append {ℓ} :
    {A : Type ℓ} (l m : List A) (i : ℕ) (a : A)
    → get_elem? l i ≡ some a
    → get_elem? (l ++ m) i ≡ some a
get_elem?-append [] m i a e = absurd (cc)
get_elem?-append (x ∷ l) m zero a e = e
get_elem?-append (x ∷ l) m (suc i) a e = get_elem?-append l m i a e

pub get_elem?-last {ℓ} :
    {A : Type ℓ} (l : List A) (a : A) → get_elem? (l ++ a ∷ []) (length l) ≡ some a
get_elem?-last [] a = refl
get_elem?-last (x ∷ l) a = get_elem?-last l a

pub Fits-append : (l : List Slot) (m : List Slot) (e : Entry) → Fits l e → Fits (l ++ m) e
Fits-append l m e h = record {
  slot = h.slot;
  stands = get_elem?-append l m e.1.unit_index h.slot h.stands;
  bits = h.bits;
  inside = h.inside;
}

-- All that is recorded lies before a slot that is yet to come.
pub Fits-Behind : (l : List Slot) (n : ℕ) (e : Entry) → Fits l e → Behind (length l) n e
Fits-Behind l n e h = inl (get_elem?-lt l e.1.unit_index h.slot h.stands)

pub push-IsFit : (s : Slot) (b : Builder) → IsFit b → IsFit (push s b)
unfolding push
push-IsFit s b h = record {
  fits =
      All-map (Fits b.padded) (Fits (b.padded ++ s ∷ [])) b.bit_fields
        (Fits-append b.padded (s ∷ [])) h.fits;
  apart = h.apart;
  current = carry h.current;
  waiting = h.waiting;
}
  where
    carry : Current b → Current (push s b)
    carry (inl z) = inl z
    carry (inr (u, e, n, r)) = inr (u, get_elem?-append b.padded (s ∷ []) b.unit_index u e, n, r)

pub choose-IsFit : (c : Bool) (x y : Builder) → IsFit x → IsFit y → IsFit (if c then x else y)
choose-IsFit true x y h k = h
choose-IsFit false x y h k = k

pub pad_to-IsFit : (off : ℕ) (b : Builder) → IsFit b → IsFit (pad_to off b)
unfolding pad_to push
pad_to-IsFit off b h =
    let k = push-IsFit (padding (off - b.cursor)) b h in
    choose-IsFit (ltb b.cursor off) _ b
      (record { fits = k.fits; apart = k.apart; current = k.current; waiting = k.waiting }) h

pub flush_unit-IsFit : (b : Builder) → IsFit b → IsFit (flush_unit b)
unfolding flush_unit
flush_unit-IsFit b h = record {
  fits = h.fits;
  apart = h.apart;
  current = inl refl;
  waiting = h.waiting;
}
