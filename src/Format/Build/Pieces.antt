-- ===== src/Format/Build/Pieces.antt =====
-- src/ast/PrintFormat.cpp: `buildPrintFormat` on a literal that is written as texts and placeholders.
use my_llvm_c.Prelude.{
  ℕ, zero, suc, ◌≤◌, ◌≡◌, refl, sym, ◌∙◌, ap, ap₂, Bool, false, Bytes, [], ◌∷◌, ◌++◌, ◌==◌,
  if◌then◌else◌, List, arith, inl, inr, Bool-cases, codes, append_assoc, append-nil, length, All,
  length-append, ==_iff,
}
use my_llvm_c.Format.Spec.{PrintSpec}
use my_llvm_c.Format.Spec.Conversion.{PrintArgKind}
use my_llvm_c.Format.Build.{
  too_few, too_many, Built, built, failed, stuck, Output, until_brace, read_spec, Placeholder,
  placed, refused, placeholder, finish, finish_kinds, emit, place, fill_slot, close_spec,
  open_brace, close_brace, round, resume, build_fuel, build_print_format,
}

-- A character of the text, or a placeholder with its spec, which is empty for `{}`.
pub data Piece : Type 0 where
  text : ℕ → Piece
  hole : Bytes → Piece

unfoldable pub show_hole : Bytes → Bytes
show_hole [] = codes "{}"
show_hole (c ∷ spec) = b'{' ∷ b':' ∷ ((c ∷ spec) ++ b'}' ∷ [])

-- A brace is doubled.
unfoldable pub show_text : ℕ → Bytes
show_text c = if c == b'{' then codes "{{" else if c == b'}' then codes "}}" else c ∷ []

unfoldable pub show_piece : Piece → Bytes
show_piece (text c) = show_text c
show_piece (hole spec) = show_hole spec

unfoldable pub show_pieces : List Piece → Bytes
show_pieces [] = []
show_pieces (p ∷ ps) = show_piece p ++ show_pieces ps

abbrev pub Closed : Piece → Type 0
Closed (text c) = Unit
Closed (hole spec) = All (λ c. (c == b'}') ≡ false) spec

-- A text in front of what follows it, and a placeholder in front.
unfoldable pub before_text : Bytes → Built → Built
before_text t (built f sps) = built (t ++ f) sps
before_text t (failed e) = failed e
before_text t stuck = stuck

unfoldable pub before_hole : Placeholder → Built → Built
before_hole (placed t sp) (built f sps) = built (t ++ f) (sp ∷ sps)
before_hole (placed t sp) (failed e) = failed e
before_hole (placed t sp) stuck = stuck
before_hole (refused e) r = failed e

-- For printf a percent sign is doubled, and a brace is not.
unfoldable pub escape : ℕ → Bytes
escape c = if c == b'%' then codes "%%" else c ∷ []

-- The format of the pieces, one kind for each placeholder.
unfoldable pub render : Bool → List Piece → List PrintArgKind → Built
render newline [] [] = built (if newline then codes "\n" else []) []
render newline [] (k ∷ ks) = failed too_many
render newline (text c ∷ ps) ks = before_text (escape c) (render newline ps ks)
render newline (hole spec ∷ ps) [] = failed too_few
render newline (hole spec ∷ ps) (k ∷ ks) = before_hole (placeholder k spec) (render newline ps ks)

-- What was put out so far, in front of the rest.
unfoldable pub attach : Output → Built → Built
attach o (built f sps) = built (o.format ++ f) (o.specs ++ sps)
attach o (failed e) = failed e
attach o stuck = stuck

attach-before_text :
    (o : Output) (t : Bytes) (r : Built) → attach (emit o t) r ≡ attach o (before_text t r)
unfolding attach before_text emit
attach-before_text o t (built f sps) =
    ap (λ z. built z (o.specs ++ sps)) (append_assoc o.format t f)
attach-before_text o t (failed e) = refl
attach-before_text o t stuck = refl

attach-before_hole :
    (o : Output) (t : Bytes) (sp : PrintSpec) (ks : List PrintArgKind) (r : Built)
    → attach (record { format = o.format ++ t; specs = o.specs ++ sp ∷ []; kinds = ks }) r
      ≡ attach o (before_hole (placed t sp) r)
unfolding attach before_hole
attach-before_hole o t sp ks (built f sps) =
    ap₂ built (append_assoc o.format t f) (append_assoc o.specs (sp ∷ []) sps)
attach-before_hole o t sp ks (failed e) = refl
attach-before_hole o t sp ks stuck = refl

until_brace-append :
    (spec rest : Bytes)
    → All (λ c. (c == b'}') ≡ false) spec
    → until_brace (spec ++ b'}' ∷ rest) ≡ (spec, b'}' ∷ rest)
unfolding until_brace
until_brace-append [] rest h = refl
until_brace-append (c ∷ spec) rest h = rw (h.0, until_brace-append spec rest h.1) refl

-- One piece is one round.
text-round :
    (c : ℕ) (rest : Bytes) (o : Output) (newline : Bool) (fuel : ℕ)
    → build_fuel newline (suc fuel) (show_text c ++ rest) o
      ≡ build_fuel newline fuel rest (emit o (escape c))
unfolding build_fuel round resume show_text escape open_brace close_brace
text-round c rest o newline fuel = elim (Bool-cases (c == b'{')) [
  | inl e ↦ rw ((==_iff c b'{').0 e) refl
  | inr e ↦ elim (Bool-cases (c == b'}')) [
    | inl f ↦ rw ((==_iff c b'}').0 f) refl
    | inr f ↦ elim (Bool-cases (c == b'%')) [
      | inl g ↦ rw (e, f) (rw (e, f, g) refl)
      | inr g ↦ rw (e, f) (rw (e, f, g) refl)
    ]
  ]
]

hole-round :
    (spec rest : Bytes) (o : Output) (newline : Bool) (fuel : ℕ)
    → All (λ c. (c == b'}') ≡ false) spec
    → build_fuel newline (suc fuel) (show_hole spec ++ rest) o
      ≡ resume (λ s o'. build_fuel newline fuel s o') (fill_slot spec rest o.kinds o)
unfolding build_fuel round show_hole open_brace read_spec close_spec
hole-round [] rest o newline fuel h = refl
hole-round (c ∷ spec) rest o newline fuel h =
    rw (append_assoc (c ∷ spec) (b'}' ∷ []) rest, until_brace-append (c ∷ spec) rest h) refl

-- The rest of the pieces, put out behind `o`.
module _ (newline : Bool) (fuel : ℕ) (rest : Bytes) (ps : List Piece) where
  module _
      (ih : (o : Output)
        → build_fuel newline fuel rest o ≡ attach o (render newline ps o.kinds)) where
    slot-attach :
        (p : Placeholder) (o : Output) (ks : List PrintArgKind)
        → resume (λ s o'. build_fuel newline fuel s o') (place p rest ks o)
          ≡ attach o (before_hole p (render newline ps ks))
    unfolding place resume before_hole attach
    slot-attach (placed t sp) o ks =
        ih (record { format = o.format ++ t; specs = o.specs ++ sp ∷ []; kinds = ks })
        ∙ attach-before_hole o t sp ks (render newline ps ks)
    slot-attach (refused e) o ks = refl

    hole-attach :
        (spec : Bytes) (o : Output) (ks : List PrintArgKind)
        → resume (λ s o'. build_fuel newline fuel s o') (fill_slot spec rest ks o)
          ≡ attach o (render newline (hole spec ∷ ps) ks)
    unfolding fill_slot resume render attach
    hole-attach spec o [] = refl
    hole-attach spec o (k ∷ ks) = slot-attach (placeholder k spec) o ks

finish-attach :
    (newline : Bool) (o : Output) (ks : List PrintArgKind)
    → finish_kinds newline o ks ≡ attach o (render newline [] ks)
unfolding finish_kinds attach render
finish-attach newline o [] =
    ap (built (o.format ++ (if newline then codes "\n" else []))) (sym (append-nil o.specs))
finish-attach newline o (k ∷ ks) = refl

show_text-length : (c : ℕ) → 1 ≤ length (show_text c)
unfolding show_text
show_text-length c = ground arith

show_hole-length : (spec : Bytes) → 1 ≤ length (show_hole spec)
unfolding show_hole
show_hole-length [] = omega arith
show_hole-length (c ∷ spec) = omega arith

no_room : (t rest : Bytes) → 1 ≤ length t → length (t ++ rest) ≤ 0 → 1 ≤ 0
no_room t rest h l = omega (arith, h, l, length-append t rest)

pieces-attach :
    (newline : Bool) (ps : List Piece) (fuel : ℕ) (o : Output)
    → All Closed ps
    → length (show_pieces ps) ≤ fuel
    → build_fuel newline fuel (show_pieces ps) o ≡ attach o (render newline ps o.kinds)
unfolding show_pieces show_piece build_fuel finish render emit
pieces-attach newline [] zero o h l = finish-attach newline o o.kinds
pieces-attach newline [] (suc fuel) o h l = finish-attach newline o o.kinds
pieces-attach newline (text c ∷ ps) zero o h l =
    elim (no_room (show_text c) (show_pieces ps) (show_text-length c) l) [ ]
pieces-attach newline (text c ∷ ps) (suc fuel) o h l =
    text-round c (show_pieces ps) o newline fuel
    ∙ pieces-attach newline ps fuel (emit o (escape c)) h.1
        (omega (arith, l, show_text-length c, length-append (show_text c) (show_pieces ps)))
    ∙ attach-before_text o (escape c) (render newline ps o.kinds)
pieces-attach newline (hole spec ∷ ps) zero o h l =
    elim (no_room (show_hole spec) (show_pieces ps) (show_hole-length spec) l) [ ]
pieces-attach newline (hole spec ∷ ps) (suc fuel) o h l =
    hole-round spec (show_pieces ps) o newline fuel h.0
    ∙ hole-attach newline fuel (show_pieces ps) ps
        (λ o'. pieces-attach newline ps fuel o' h.1 (
          omega (arith, l, show_hole-length spec, length-append (show_hole spec) (show_pieces ps))))
        spec o o.kinds

attach-nil :
    (kinds : List PrintArgKind) (r : Built)
    → attach (record { format = []; specs = []; kinds = kinds }) r ≡ r
unfolding attach
attach-nil kinds (built f sps) = refl
attach-nil kinds (failed e) = refl
attach-nil kinds stuck = refl

-- The literal of some pieces builds what rendering them one by one gives: braces undoubled, percent
-- signs doubled, each placeholder converted for the next kind, and the first failure of the pieces if one fails.
pub build_print_format-show_pieces :
    (ps : List Piece) (kinds : List PrintArgKind) (newline : Bool)
    → All Closed ps
    → build_print_format (show_pieces ps) kinds newline ≡ render newline ps kinds
unfolding build_print_format
build_print_format-show_pieces ps kinds newline h =
    pieces-attach newline ps (length (show_pieces ps))
      (record { format = []; specs = []; kinds = kinds }) h (omega arith)
    ∙ attach-nil kinds (render newline ps kinds)
