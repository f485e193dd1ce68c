-- ===== src/Format/Build/Finishes.antt =====
-- src/ast/PrintFormat.cpp: the length of what each round of `buildPrintFormat` leaves.
use my_llvm_c.Prelude.{
  ℕ, zero, suc, ◌≤◌, ◌≢◌, Bool, Bytes, [], ◌∷◌, ◌==◌, List, arith, inl, inr, Bool-cases, length,
}
use my_llvm_c.Format.Spec.Conversion.{PrintArgKind}
use my_llvm_c.Format.Build.{
  Built, stuck, Output, until_brace, read_spec, Placeholder, placed, refused, placeholder, finish,
  finish_kinds, Round, go, stop, place, fill_slot, close_spec, open_brace, close_brace, round,
  resume, build_fuel, build_print_format,
}

-- A round leaves no more than what it was given.
abbrev Within : ℕ → Round → Type 0
Within n (go s o) = length s ≤ n
Within n (stop e) = Unit

until_brace-length : (s : Bytes) → length (until_brace s).1 ≤ length s
unfolding until_brace
until_brace-length [] = omega arith
until_brace-length (c ∷ s) = elim (Bool-cases (c == b'}')) [
  | inl e ↦ rw e (omega arith)
  | inr e ↦ rw e (omega (arith, until_brace-length s))
]

read_spec-length : (s : Bytes) → length (read_spec s).1 ≤ length s
unfolding read_spec
read_spec-length [] = omega arith
read_spec-length (c ∷ s) = elim (Bool-cases (c == b':')) [
  | inl e ↦ rw e (omega (arith, until_brace-length s))
  | inr e ↦ rw e (omega arith)
]

place-Within :
    (p : Placeholder) (left : Bytes) (ks : List PrintArgKind) (o : Output)
    → Within (length left) (place p left ks o)
unfolding place
place-Within (placed t sp) left ks o = omega arith
place-Within (refused e) left ks o = tt

fill_slot-Within :
    (spec left : Bytes) (ks : List PrintArgKind) (o : Output)
    → Within (length left) (fill_slot spec left ks o)
unfolding fill_slot
fill_slot-Within spec left [] o = tt
fill_slot-Within spec left (k ∷ ks) o = place-Within (placeholder k spec) left ks o

Within-le : (m n : ℕ) (r : Round) → m ≤ n → Within m r → Within n r
Within-le m n (go s o) l h = omega (arith, l, h)
Within-le m n (stop e) l h = tt

close_spec-Within : (spec left : Bytes) (o : Output) → Within (length left) (close_spec spec left o)
unfolding close_spec
close_spec-Within spec [] o = tt
close_spec-Within spec (c ∷ left) o = elim (Bool-cases (c == b'}')) [
  | inl e ↦ rw e (
      Within-le (length left) (length (c ∷ left)) (fill_slot spec left o.kinds o) (omega arith)
        (fill_slot-Within spec left o.kinds o))
  | inr e ↦ rw e tt
]

open_brace-Within : (s : Bytes) (o : Output) → Within (length s) (open_brace s o)
unfolding open_brace
open_brace-Within [] o = tt
open_brace-Within (c ∷ s) o = elim (Bool-cases (c == b'{')) [
  | inl e ↦ rw e (omega arith)
  | inr e ↦ rw e (
      Within-le _ _ _ (read_spec-length (c ∷ s))
        (close_spec-Within (read_spec (c ∷ s)).0 (read_spec (c ∷ s)).1 o))
]

close_brace-Within : (s : Bytes) (o : Output) → Within (length s) (close_brace s o)
unfolding close_brace
close_brace-Within [] o = tt
close_brace-Within (c ∷ s) o = elim (Bool-cases (c == b'}')) [
  | inl e ↦ rw e (omega arith)
  | inr e ↦ rw e tt
]

round-Within : (c : ℕ) (s : Bytes) (o : Output) → Within (length s) (round c s o)
unfolding round
round-Within c s o = elim (Bool-cases (c == b'{')) [
  | inl e ↦ rw e (open_brace-Within s o)
  | inr e ↦ elim (Bool-cases (c == b'}')) [
    | inl f ↦ rw (e, f) (close_brace-Within s o)
    | inr f ↦ elim (Bool-cases (c == b'%')) [
      | inl g ↦ rw (e, f, g) (omega arith)
      | inr g ↦ rw (e, f, g) (omega arith)
    ]
  ]
]

resume-finishes :
    (n : ℕ) (next : Bytes → Output → Built) (r : Round)
    → ((s : Bytes) (o : Output) → length s ≤ n → next s o ≢ stuck)
    → Within n r
    → resume next r ≢ stuck
unfolding resume
resume-finishes n next (go s o) h w = h s o w
resume-finishes n next (stop e) h w = λ d. cc

finish_kinds-finishes :
    (newline : Bool) (o : Output) (ks : List PrintArgKind) → finish_kinds newline o ks ≢ stuck
unfolding finish_kinds
finish_kinds-finishes newline o [] = λ d. cc
finish_kinds-finishes newline o (k ∷ ks) = λ d. cc

build_fuel-finishes :
    (newline : Bool) (fuel : ℕ) (s : Bytes) (o : Output)
    → length s ≤ fuel
    → build_fuel newline fuel s o ≢ stuck
unfolding build_fuel finish
build_fuel-finishes newline zero [] o l = finish_kinds-finishes newline o o.kinds
build_fuel-finishes newline (suc fuel) [] o l = finish_kinds-finishes newline o o.kinds
build_fuel-finishes newline zero (c ∷ s) o l = elim (shorter s l) [ ]
  where
    shorter : (s : Bytes) → suc (length s) ≤ 0 → 1 ≤ 0
    shorter s l = omega (arith, l)
build_fuel-finishes newline (suc fuel) (c ∷ s) o l =
    resume-finishes fuel (λ s' o'. build_fuel newline fuel s' o') (round c s o)
      (build_fuel-finishes newline fuel)
      (Within-le (length s) fuel (round c s o) (omega arith) (round-Within c s o))

-- The loop comes to an end of its own on every literal: it never runs out of steps.
pub build_print_format-finishes :
    (literal : Bytes) (kinds : List PrintArgKind) (newline : Bool)
    → build_print_format literal kinds newline ≢ stuck
unfolding build_print_format
build_print_format-finishes literal kinds newline =
    build_fuel-finishes newline (length literal) literal
      (record { format = []; specs = []; kinds = kinds }) (omega arith)
