-- ===== src/Layout/BitFields/Region.antt =====
-- src/ast/LayoutBuilder.cpp: the regions of packed bit-fields.
pub mod Unit
use my_llvm_c.Prelude.{
  ◌≢◌, ℕ, zero, suc, ◌+◌, ◌-◌, ◌*◌, ◌≤◌, ◌<◌, max, ◌≡◌, ◌⊎◌, inl, inr, refl, sym, ap, subst, ◌∙◌,
  Bool, true, false, not, ◌||◌, ◌&&◌, List, [], ◌∷◌, ◌++◌, Option, none, some, ltb, ◌==◌, ==_iff,
  ◌/◌, if◌then◌else◌, Bool-cases, Bytes, arith, length, get_elem?, length-append, All, All-map,
}
use my_llvm_c.Types.{AstType}
use my_llvm_c.Layout.Align.{align_up-AlignsUp}
use my_llvm_c.Layout.{
  BitFieldLayout, PendingBf, Field, Measure, Slot, unit_slot, padding, region, field_slot,
  slot_bytes, Annotations, Builder, align_up, flush_unit, pad_to, push, region_size, settle,
  settle_region, close_region, open_region, add_packed, new_unit, take_bits, add_to_unit,
  field_align, add_field, is_empty, is_bit_field, bit_field_storage_type, add, add_all, start,
  finish, build_aggregate,
}
use my_llvm_c.Layout.BitFields.{
  Fits, IsFit, Entry, Behind, Apart, Runs, Current, Pending, get_elem?-last, Fits-append,
  Fits-Behind, push-IsFit, choose-IsFit, pad_to-IsFit, flush_unit-IsFit,
}

-- The entries that a region settles.
record Settled (slots : List Slot) (index : ℕ) (known : List Entry) : Type 0 where
  pub fits : All (Fits slots) known
  pub apart : Apart known

settle-Settled :
    (slots : List Slot) (s : Slot) (index bits at : ℕ) (pending : List PendingBf)
    (known : List Entry)
    → get_elem? slots index ≡ some s
    → slot_bytes s * 8 ≡ bits
    → Runs at pending bits
    → All (Behind index at) known
    → Settled slots index known
    → Settled slots index (settle index bits pending known)
unfolding settle
settle-Settled slots s index bits at [] known g n r v h = h
settle-Settled slots s index bits at (p ∷ rest) known g n r v h =
    settle-Settled slots s index bits (p.bit_offset + p.bit_width) rest (_ ∷ known) g n r.1
      (
        inr (refl, omega arith),
        All-map (Behind index at) (Behind index (p.bit_offset + p.bit_width)) known
            (λ e. further e r.0) v,
      )
      (record {
        fits = (
          record {
            slot = s;
            stands = g;
            bits = n;
            inside = ends (p.bit_offset + p.bit_width) rest r.1;
          },
          h.fits,
        );
        apart = (
          All-map (Behind index at) (Behind index p.bit_offset) known (λ e. nearer e r.0) v,
          h.apart,
        );
      })
  where
    ends : (x : ℕ) (rest : List PendingBf) → Runs x rest bits → x ≤ bits
    ends x [] r = r
    ends x (q ∷ rest) r = omega (arith, r.0, ends (q.bit_offset + q.bit_width) rest r.1)

    nearer : (e : Entry) → at ≤ p.bit_offset → Behind index at e → Behind index p.bit_offset e
    nearer e l (inl i) = inl i
    nearer e l (inr (i, j)) = inr (i, omega (arith, l, j))

    further :
        (e : Entry)
        → at ≤ p.bit_offset
        → Behind index at e
        → Behind index (p.bit_offset + p.bit_width) e
    further e l (inl i) = inl i
    further e l (inr (i, j)) = inr (i, omega (arith, l, j))

-- What holds of the entries, wherever the loop stands.
pub record IsRecorded (b : Builder) : Type 0 where
  pub fits : All (Fits b.padded) b.bit_fields
  pub apart : Apart b.bit_fields

region_size-bits : (n : ℕ) → n ≤ region_size n * 8
unfolding region_size
region_size-bits n = elim (Bool-cases ((n + 7) / 8 == 0)) [
  | inl z ↦ rw z (small n z)
  | inr z ↦ rw z (omega arith)
]
  where
    small : (n : ℕ) → ((n + 7) / 8 == 0) ≡ true → n ≤ 8
    small n z = omega (arith, (==_iff ((n + 7) / 8) 0).0 z)

Runs-end : (at : ℕ) (ps : List PendingBf) (e f : ℕ) → e ≤ f → Runs at ps e → Runs at ps f
Runs-end at [] e f l r = omega (arith, l, r)
Runs-end at (p ∷ ps) e f l r = (r.0, Runs-end (p.bit_offset + p.bit_width) ps e f l r.1)

settle_region-IsRecorded :
    (b : Builder)
    → IsFit b
    → Runs 0 b.pending b.region_bits
    → IsRecorded (settle_region (region_size b.region_bits) b)
unfolding settle_region push
settle_region-IsRecorded b h r =
    let n = region_size b.region_bits in
    let slots = b.padded ++ region n ∷ [] in
    let done =
      settle-Settled slots (region n) (length b.padded) (n * 8) 0 b.pending b.bit_fields
        (get_elem?-last b.padded (region n)) (slot_size n)
        (Runs-end 0 b.pending b.region_bits (n * 8) (region_size-bits b.region_bits) r)
        (All-map (Fits b.padded) (Behind (length b.padded) 0) b.bit_fields (Fits-Behind b.padded 0)
          h.fits)
        (record {
          fits =
              All-map (Fits b.padded) (Fits slots) b.bit_fields
                (Fits-append b.padded (region n ∷ [])) h.fits;
          apart = h.apart;
        }) in
    record { fits = done.fits; apart = done.apart }
  where
    slot_size : (n : ℕ) → slot_bytes (region n) * 8 ≡ n * 8
    slot_size n = refl

settled_waiting : (n : ℕ) (b : Builder) → Pending (settle_region n b)
unfolding settle_region
settled_waiting n b = inl (refl, refl)

flushed : (c : Builder) → IsRecorded c → Pending c → IsRecorded c × IsFit (flush_unit c)
unfolding flush_unit
flushed c k w = (k, record { fits = k.fits; apart = k.apart; current = inl refl; waiting = w })

-- The end of a region, behind which there is no unit.
pub close_region-IsFit :
    (b : Builder) → IsFit b → IsRecorded (close_region b) × IsFit (flush_unit (close_region b))
unfolding close_region
close_region-IsFit b h = cases b.region_active refl h.waiting
  where
    cases :
        (a : Bool)
        → b.region_active ≡ a
        → Pending b
        → IsRecorded (if a then settle_region (region_size b.region_bits) b else b)
          × IsFit (flush_unit (if a then settle_region (region_size b.region_bits) b else b))
    cases false e w = flushed b (record { fits = h.fits; apart = h.apart }) w
    cases true e (inr r) =
        flushed (settle_region (region_size b.region_bits) b) (settle_region-IsRecorded b h r.1)
          (settled_waiting (region_size b.region_bits) b)
    cases true e (inl f) = let never = sym e ∙ f.0 in absurd (cc)

-- An opened region holds what is pending.
open_region-Runs :
    (b : Builder)
    → Pending b
    → ((open_region b).region_active ≡ true)
      × Runs 0 (open_region b).pending (open_region b).region_bits
unfolding open_region
open_region-Runs b h = cases b.region_active refl h
  where
    cases :
        (a : Bool)
        → b.region_active ≡ a
        → Pending b
        → ((if a then b else record b { region_active = true; region_bits = 0 }).region_active
            ≡ true)
          × Runs 0
              (if a then b else record b { region_active = true; region_bits = 0 }).pending
              (if a then b else record b { region_active = true; region_bits = 0 }).region_bits
    cases true e (inl f) = let never = sym e ∙ f.0 in absurd (cc)
    cases true e (inr r) = r
    cases false e (inl f) = (refl, subst (λ l. Runs 0 l 0) (sym f.1) (omega arith))
    cases false e (inr r) = let never = sym e ∙ r.0 in absurd (cc)

open_region-IsFit : (b : Builder) → IsFit b → IsFit (open_region b)
unfolding open_region
open_region-IsFit b h = cases b.region_active refl h.waiting
  where
    cases :
        (a : Bool)
        → b.region_active ≡ a
        → Pending b
        → IsFit (if a then b else record b { region_active = true; region_bits = 0 })
    cases true e w = h
    cases false e (inl f) = record {
      fits = h.fits;
      apart = h.apart;
      current = h.current;
      waiting = inr (refl, subst (λ l. Runs 0 l 0) (sym f.1) (omega arith));
    }
    cases false e (inr r) = let never = sym e ∙ r.0 in absurd (cc)

Runs-snoc :
    (at : ℕ) (ps : List PendingBf) (p : PendingBf)
    → Runs at ps p.bit_offset
    → Runs at (ps ++ p ∷ []) (p.bit_offset + p.bit_width)
Runs-snoc at [] p r = (r, omega arith)
Runs-snoc at (q ∷ ps) p r = (r.0, Runs-snoc (q.bit_offset + q.bit_width) ps p r.1)

align_up-from : (v a : ℕ) → v ≤ align_up v a
unfolding align_up
align_up-from v zero = omega arith
align_up-from v (suc n) = (align_up-AlignsUp v (suc n) (omega arith)).from

pub add_packed-IsFit :
    (f : Field) (m : Option Measure) (b : Builder) → IsFit b → IsFit (add_packed f m b)
unfolding add_packed
add_packed-IsFit f m b h =
    let r = open_region b in
    let k = open_region-IsFit b h in
    let w = open_region-Runs b h.waiting in
    choose-IsFit (f.bit_width == 0 && is_empty f.name) _ _
      (record {
        fits = k.fits;
        apart = k.apart;
        current = k.current;
        waiting =
            inr (w.0, Runs-end 0 r.pending r.region_bits _ (align_up-from r.region_bits _) w.1);
      })
      (record {
        fits = k.fits;
        apart = k.apart;
        current = k.current;
        waiting = inr (w.0, taken (is_empty f.name) w.1);
      })
  where
    taken :
        (e : Bool)
        → Runs 0 (open_region b).pending (open_region b).region_bits
        → Runs 0
            (if e
              then (open_region b).pending
              else (open_region b).pending
                ++ record {
                  name = f.name;
                  bit_offset = (open_region b).region_bits;
                  bit_width = f.bit_width;
                }
                  ∷ [])
            ((open_region b).region_bits + f.bit_width)
    taken true w = Runs-end 0 (open_region b).pending (open_region b).region_bits _ (omega arith) w
    taken false w =
        Runs-snoc 0 (open_region b).pending
          (record {
            name = f.name;
            bit_offset = (open_region b).region_bits;
            bit_width = f.bit_width;
          })
          w
