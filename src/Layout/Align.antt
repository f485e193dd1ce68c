-- ===== src/Layout/Align.antt =====
-- src/ast/LayoutBuilder.cpp: `alignUp`.
use native.Mathlib.Nat.{mod-add-div, mod-lt, mul-mod_left, mul_comm}
use my_llvm_c.Prelude.{
  ℕ, zero, suc, ◌+◌, ◌-◌, ◌*◌, ◌/◌, ◌%◌, ◌≤◌, ◌<◌, ◌≡◌, ap, ◌∙◌, ◌==◌, if◌then◌else◌, arith,
}
use my_llvm_c.Layout.{align_up}

-- What an alignment of `v` to `a` is.
pub record AlignsUp (v a up : ℕ) : Type 0 where
  pub from : v ≤ up
  pub least : up < v + a
  pub multiple : up % a ≡ 0

-- alignUp gives the least multiple of the alignment from the value on.
pub align_up-AlignsUp : (v a : ℕ) → 0 < a → AlignsUp v a (align_up v a)
unfolding align_up
align_up-AlignsUp v zero h = absurd (omega (arith, h))
align_up-AlignsUp v (suc n) h =
    let a = suc n in
    let q = (v + a - 1) / a in
    let whole : (v + a - 1) % a + q * a ≡ v + a - 1 =
      ap (λ x. (v + a - 1) % a + x) (mul_comm q a) ∙ mod-add-div (v + a - 1) a in
    let low : (v + a - 1) % a < a = mod-lt (v + a - 1) h in
    let up : (if suc n == 0 then v else q * a) ≡ q * a = ground arith in
    rw up (record {
      from = bounds v a (q * a) ((v + a - 1) % a) whole low h;
      least = below v a (q * a) ((v + a - 1) % a) whole h;
      multiple = mul-mod_left q a;
    })
  where
    bounds : (v a p r : ℕ) → r + p ≡ v + a - 1 → r < a → 0 < a → v ≤ p
    bounds v a p r e l h = omega (arith, e, l, h)

    below : (v a p r : ℕ) → r + p ≡ v + a - 1 → 0 < a → p < v + a
    below v a p r e h = omega (arith, e, h)
