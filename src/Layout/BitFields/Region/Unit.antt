-- ===== src/Layout/BitFields/Region/Unit.antt =====
-- src/ast/LayoutBuilder.cpp: the units of bit-fields.
use my_llvm_c.Prelude.{
  ◌≢◌, ℕ, ◌+◌, ◌-◌, ◌*◌, ◌≤◌, ◌≡◌, inl, inr, refl, sym, ap, subst, ◌∙◌, Bool, true, false, not,
  ◌||◌, ◌&&◌, [], ◌∷◌, ◌++◌, some, ltb, ◌==◌, if◌then◌else◌, arith, length, get_elem?,
  length-append, All, All-map,
}
use my_llvm_c.Layout.{
  Field, Measure, Slot, unit_slot, field_slot, slot_bytes, Annotations, Builder, align_up, pad_to,
  push, new_unit, take_bits, add_to_unit, field_align, add_field, is_empty,
}
use my_llvm_c.Layout.BitFields.{
  Fits, IsFit, Entry, Behind, Current, get_elem?-last, Fits-Behind, push-IsFit, choose-IsFit,
  pad_to-IsFit, flush_unit-IsFit,
}

-- A unit with room for a bit-field.
record HasRoom (f : Field) (bits : ℕ) (b : Builder) : Type 0 where
  pub slot : Slot
  pub stands : get_elem? b.padded b.unit_index ≡ some slot
  pub bytes : slot_bytes slot ≡ b.unit_bytes
  pub same : b.unit_bytes * 8 ≡ bits
  pub behind : All (Behind b.unit_index b.bit_used) b.bit_fields
  pub room : b.bit_used + f.bit_width ≤ bits

take_bits-IsFit :
    (f : Field) (bits : ℕ) (b : Builder) → HasRoom f bits b → IsFit b → IsFit (take_bits f bits b)
unfolding take_bits
take_bits-IsFit f bits b r h = cases (is_empty f.name)
  where
    entry : Entry
    entry = (
      f.name,
      record {
        unit_index = b.unit_index;
        bit_offset = b.bit_used;
        bit_width = f.bit_width;
        unit_bits = bits;
      },
    )

    later :
        (e : Entry)
        → Behind b.unit_index b.bit_used e
        → Behind b.unit_index (b.bit_used + f.bit_width) e
    later e (inl i) = inl i
    later e (inr (i, j)) = inr (i, omega (arith, j))

    moved : All (Behind b.unit_index (b.bit_used + f.bit_width)) b.bit_fields
    moved =
        All-map (Behind b.unit_index b.bit_used) (Behind b.unit_index (b.bit_used + f.bit_width))
          b.bit_fields later r.behind

    cases :
        (e : Bool)
        → IsFit (record b {
          bit_fields = if e then b.bit_fields else entry ∷ b.bit_fields;
          bit_used = b.bit_used + f.bit_width;
        })
    cases true = record {
      fits = h.fits;
      apart = h.apart;
      current = inr (r.slot, r.stands, r.bytes, moved);
      waiting = h.waiting;
    }
    cases false = record {
      fits = (
        record {
          slot = r.slot;
          stands = r.stands;
          bits = ap (λ n. n * 8) r.bytes ∙ r.same;
          inside = r.room;
        },
        h.fits,
      );
      apart = (r.behind, h.apart);
      current = inr (r.slot, r.stands, r.bytes, (inr (refl, omega arith), moved));
      waiting = h.waiting;
    }

unit_index-last :
    (q : Builder) (m : Measure)
    → get_elem? (push (unit_slot m) q).padded (length (push (unit_slot m) q).padded - 1)
      ≡ some (unit_slot m)
unfolding push
unit_index-last q m =
    ap (get_elem? (q.padded ++ unit_slot m ∷ [])) (last (length-append q.padded (unit_slot m ∷ [])))
    ∙ get_elem?-last q.padded (unit_slot m)
  where
    last :
        length (q.padded ++ unit_slot m ∷ []) ≡ length q.padded + 1
        → length (q.padded ++ unit_slot m ∷ []) - 1 ≡ length q.padded
    last e = omega (arith, e)

new_unit-IsFit :
    (f : Field) (m : Measure) (b : Builder)
    → f.bit_width ≤ m.bytes * 8
    → IsFit b
    → HasRoom f (m.bytes * 8) (new_unit m b) × IsFit (new_unit m b)
unfolding new_unit
new_unit-IsFit f m b w h =
    let q = pad_to (align_up b.cursor m.align) b in
    let k = push-IsFit (unit_slot m) q (pad_to-IsFit (align_up b.cursor m.align) b h) in
    let stands = unit_index-last q m in
    let fresh =
      All-map (Fits q.padded) (Behind (length q.padded) 0) q.bit_fields (Fits-Behind q.padded 0)
        (pad_to-IsFit (align_up b.cursor m.align) b h).fits in
    let behind = subst (λ n. All (Behind n 0) q.bit_fields) (sym (index q)) fresh in
    (
      record {
        slot = unit_slot m;
        stands = stands;
        bytes = refl;
        same = refl;
        behind = behind;
        room = omega (arith, w);
      },
      record {
        fits = k.fits;
        apart = k.apart;
        current = inr (unit_slot m, stands, refl, behind);
        waiting = k.waiting;
      },
    )
  where
    index : (q : Builder) → length (push (unit_slot m) q).padded - 1 ≡ length q.padded
    index q = omega (arith, length-append q.padded (unit_slot m ∷ []))

-- Whether the current unit will do.
unit_room :
    (f : Field) (m : Measure) (b : Builder)
    → (b.unit_bytes == 0
        || not (b.unit_bytes == m.bytes)
        || ltb (m.bytes * 8) (b.bit_used + f.bit_width))
      ≡ false
    → IsFit b
    → HasRoom f (m.bytes * 8) b
unit_room f m b e h = room h.current
  where
    tests :
        (u n c : ℕ)
        → (u == 0 || not (u == n) || ltb (n * 8) c) ≡ false
        → (u ≢ 0) × (u ≡ n) × (c ≤ n * 8)
    tests u n c e = (ground arith, ground arith, ground arith)

    room : Current b → HasRoom f (m.bytes * 8) b
    room (inl z) = absurd ((tests b.unit_bytes m.bytes (b.bit_used + f.bit_width) e).0 z)
    room (inr (s, g, n, r)) =
        let (_, same, fits) = tests b.unit_bytes m.bytes (b.bit_used + f.bit_width) e in
        record {
          slot = s;
          stands = g;
          bytes = n;
          same = ap (λ n. n * 8) same;
          behind = r;
          room = fits;
        }

pub add_to_unit-IsFit :
    (f : Field) (m : Measure) (b : Builder)
    → f.bit_width ≤ m.bytes * 8
    → IsFit b
    → IsFit (add_to_unit f m b)
unfolding add_to_unit
add_to_unit-IsFit f m b w h =
    choose-IsFit (f.bit_width == 0 && is_empty f.name) _ _ (flush_unit-IsFit b h) (
      cases
        (b.unit_bytes == 0
          || not (b.unit_bytes == m.bytes)
          || ltb (m.bytes * 8) (b.bit_used + f.bit_width))
        refl)
  where
    cases :
        (c : Bool)
        → (b.unit_bytes == 0
            || not (b.unit_bytes == m.bytes)
            || ltb (m.bytes * 8) (b.bit_used + f.bit_width))
          ≡ c
        → IsFit
            (if c then take_bits f (m.bytes * 8) (new_unit m b) else take_bits f (m.bytes * 8) b)
    cases true e =
        let (r, k) = new_unit-IsFit f m b w h in take_bits-IsFit f (m.bytes * 8) (new_unit m b) r k
    cases false e = take_bits-IsFit f (m.bytes * 8) b (unit_room f m b e h) h

pub add_field-IsFit :
    (n : Annotations) (f : Field) (m : Measure) (b : Builder) → IsFit b → IsFit (add_field n f m b)
unfolding add_field
add_field-IsFit n f m b h =
    let ta = field_align n f m in
    let k =
      push-IsFit (field_slot f (record { bytes = m.bytes; align = ta }))
        (pad_to (align_up b.cursor ta) b) (pad_to-IsFit (align_up b.cursor ta) b h) in
    record { fits = k.fits; apart = k.apart; current = k.current; waiting = k.waiting }
