-- ===== src/Format/Build/Rounds.antt =====
-- src/ast/PrintFormat.cpp: what printf takes for the format so far, round by round of `buildPrintFormat`.
use my_llvm_c.Prelude.{
  ℕ, suc, ◌+◌, ◌≡◌, refl, sym, ◌∙◌, ap, subst, false, Bytes, [], ◌∷◌, ◌++◌, ◌==◌, List, arith, inl,
  inr, Bool-cases, codes, append_assoc, append-nil, length,
}
use my_llvm_c.Format.Spec.{PrintSpec, default_spec, Parsed, ok, error, parse_print_spec}
use my_llvm_c.Format.Spec.Conversion.{
  PrintArgKind, default_conversion, needs_render, Conversion, converted, unsupported,
  spec_to_printf_conversion,
}
use my_llvm_c.Format.Build.{
  Output, read_spec, convert, parsed_placeholder, placeholder, emit, Round, go, stop, place,
  fill_slot, close_spec, open_brace, close_brace, round,
}
use my_llvm_c.Format.Build.Printf.{
  Argument, in_text, percent, letter_args, is_int_letter, is_double_letter, next_mode, next_args,
  Reads, Reads-append,
}
use my_llvm_c.Format.Build.Directive.{Reads-to}
use my_llvm_c.Format.Build.Kinds.{passed}
use my_llvm_c.Format.Build.Convert.{Reads-percent, Reads-conversion, Reads-default}

-- What is passed for all arguments, each with its spec.
unfoldable pub all_passed : List PrintArgKind → List PrintSpec → List Argument
all_passed [] sps = []
all_passed (k ∷ ks) [] = []
all_passed (k ∷ ks) (sp ∷ sps) = passed k sp ++ all_passed ks sps

-- The format so far takes what is passed for the placeholders so far, one spec for each.
pub record IsRead (kinds : List PrintArgKind) (o : Output) : Type 0 where
  pub args : List Argument
  pub reads : Reads in_text o.format args in_text
  pub passes :
      (sps : List PrintSpec) → all_passed kinds (o.specs ++ sps) ≡ args ++ all_passed o.kinds sps
  pub count : length kinds ≡ length o.specs + length o.kinds

abbrev pub RoundRead : List PrintArgKind → Round → Type 0
RoundRead kinds (go s o) = IsRead kinds o
RoundRead kinds (stop e) = Unit

length-snoc : (sps : List PrintSpec) (sp : PrintSpec) → length (sps ++ sp ∷ []) ≡ suc (length sps)
length-snoc [] sp = refl
length-snoc (x ∷ sps) sp = ap suc (length-snoc sps sp)

module _ (kinds : List PrintArgKind) where
  emit-IsRead :
      (o : Output) (t : Bytes)
      → IsRead kinds o
      → Reads in_text t [] in_text
      → IsRead kinds (emit o t)
  unfolding emit
  emit-IsRead o t h r = record {
    args = h.args;
    reads =
        subst (λ z. Reads in_text (o.format ++ t) z in_text) (append-nil h.args)
          (Reads-append h.reads r);
    passes = h.passes;
    count = h.count;
  }

  -- One more placeholder.
  place-IsRead :
      (o : Output) (k : PrintArgKind) (ks : List PrintArgKind) (text : Bytes) (sp : PrintSpec)
      → IsRead kinds o
      → o.kinds ≡ k ∷ ks
      → Reads in_text text (passed k sp) in_text
      → IsRead kinds (record { format = o.format ++ text; specs = o.specs ++ sp ∷ []; kinds = ks })
  unfolding all_passed
  place-IsRead o k ks text sp h e r = record {
    args = h.args ++ passed k sp;
    reads = Reads-append h.reads r;
    passes = λ sps.
        ap (all_passed kinds) (append_assoc o.specs (sp ∷ []) sps)
        ∙ h.passes (sp ∷ sps)
        ∙ ap (λ z. h.args ++ all_passed z (sp ∷ sps)) e
        ∙ sym (append_assoc h.args (passed k sp) (all_passed ks sps));
    count = omega (arith, h.count, ap length e, length-snoc o.specs sp);
  }

  placed-RoundRead :
      (o : Output) (k : PrintArgKind) (ks : List PrintArgKind) (left : Bytes) (sp : PrintSpec)
      (c : Conversion)
      → IsRead kinds o
      → o.kinds ≡ k ∷ ks
      → spec_to_printf_conversion k sp ≡ c
      → RoundRead kinds (place (convert sp c) left ks o)
  unfolding place convert
  placed-RoundRead o k ks left sp (converted text render) h e c =
      place-IsRead o k ks text sp h e (Reads-conversion k sp text render c)
  placed-RoundRead o k ks left sp unsupported h e c = tt

  parsed-RoundRead :
      (o : Output) (k : PrintArgKind) (ks : List PrintArgKind) (left : Bytes) (r : Parsed)
      → IsRead kinds o
      → o.kinds ≡ k ∷ ks
      → RoundRead kinds (place (parsed_placeholder k r) left ks o)
  unfolding place parsed_placeholder
  parsed-RoundRead o k ks left (ok sp) h e =
      placed-RoundRead o k ks left sp (spec_to_printf_conversion k sp) h e refl
  parsed-RoundRead o k ks left (error r) h e = tt

  slot-RoundRead :
      (o : Output) (spec left : Bytes) (ks : List PrintArgKind)
      → IsRead kinds o
      → o.kinds ≡ ks
      → RoundRead kinds (fill_slot spec left ks o)
  unfolding fill_slot placeholder place passed needs_render
  slot-RoundRead o spec left [] h e = tt
  slot-RoundRead o [] left (k ∷ ks) h e =
      place-IsRead o k ks (default_conversion k) default_spec h e (Reads-default k)
  slot-RoundRead o (c ∷ spec) left (k ∷ ks) h e =
      parsed-RoundRead o k ks left (parse_print_spec (c ∷ spec)) h e

  close_spec-RoundRead :
      (spec left : Bytes) (o : Output) → IsRead kinds o → RoundRead kinds (close_spec spec left o)
  unfolding close_spec
  close_spec-RoundRead spec [] o h = tt
  close_spec-RoundRead spec (c ∷ left) o h = elim (Bool-cases (c == b'}')) [
    | inl e ↦ rw e (slot-RoundRead o spec left o.kinds h refl)
    | inr e ↦ rw e tt
  ]

  pub Reads-text : (c : ℕ) → (c == b'%') ≡ false → Reads in_text (c ∷ []) [] in_text
  unfolding next_mode next_args
  Reads-text c e = Reads-to in_text c [] in_text refl (rw e refl)

  open_brace-RoundRead :
      (s : Bytes) (o : Output) → IsRead kinds o → RoundRead kinds (open_brace s o)
  unfolding open_brace
  open_brace-RoundRead [] o h = tt
  open_brace-RoundRead (c ∷ s) o h = elim (Bool-cases (c == b'{')) [
    | inl e ↦ rw e (emit-IsRead o (codes "{") h (Reads-text b'{' refl))
    | inr e ↦ rw e (close_spec-RoundRead (read_spec (c ∷ s)).0 (read_spec (c ∷ s)).1 o h)
  ]

  close_brace-RoundRead :
      (s : Bytes) (o : Output) → IsRead kinds o → RoundRead kinds (close_brace s o)
  unfolding close_brace
  close_brace-RoundRead [] o h = tt
  close_brace-RoundRead (c ∷ s) o h = elim (Bool-cases (c == b'}')) [
    | inl e ↦ rw e (emit-IsRead o (codes "}") h (Reads-text b'}' refl))
    | inr e ↦ rw e tt
  ]

  Reads-double_percent : Reads in_text (codes "%%") [] in_text
  unfolding next_mode next_args letter_args is_int_letter is_double_letter
  Reads-double_percent = Reads-append Reads-percent (Reads-to percent b'%' [] in_text refl refl)

  pub round-RoundRead :
      (c : ℕ) (s : Bytes) (o : Output) → IsRead kinds o → RoundRead kinds (round c s o)
  unfolding round
  round-RoundRead c s o h = elim (Bool-cases (c == b'{')) [
    | inl e ↦ rw e (open_brace-RoundRead s o h)
    | inr e ↦ elim (Bool-cases (c == b'}')) [
      | inl f ↦ rw (e, f) (close_brace-RoundRead s o h)
      | inr f ↦ elim (Bool-cases (c == b'%')) [
        | inl g ↦ rw (e, f, g) (emit-IsRead o (codes "%%") h Reads-double_percent)
        | inr g ↦ rw (e, f, g) (emit-IsRead o (c ∷ []) h (Reads-text c g))
      ]
    ]
  ]
