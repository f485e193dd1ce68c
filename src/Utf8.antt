-- ===== src/Utf8.antt =====
-- src/support/Utf8.cpp: the validator of UTF-8 text that sema applies to string literals.
-- A byte is its value; `rest` is what follows the lead byte at position `i`, so that `s[i + k]` is
-- element `k - 1` of `rest`, and `i + w > n` says that `rest` has fewer than `w - 1` elements.
use my_llvm_c.Prelude.{
  ℕ, zero, suc, ◌+◌, ◌-◌, Bool, true, false, not, ◌&&◌, ◌||◌, Option, none, some, List, [], ◌∷◌,
  Bytes, ltb, leb, ◌==◌, if◌then◌else◌, length, get_or, drop,
}
pub mod Scalars
pub mod Sound
mod Tests

-- `seqLen`, of the lead byte `s[i]`.
pub seq_len : ℕ → ℕ
seq_len lead =
    if ltb lead 0x80
    then 1
    else if leb 0xC2 lead && leb lead 0xDF
    then 2
    else if leb 0xE0 lead && leb lead 0xEF
    then 3
    else if leb 0xF0 lead && leb lead 0xF4
    then 4
    else 0

pub is_continuation : ℕ → Bool
is_continuation b = leb 0x80 b && leb b 0xBF

-- The loop `for k = 1 .. w - 1`, with `n` rounds to go.
pub all_continuation : ℕ → Bytes → Bool
all_continuation zero rest = true
all_continuation (suc n) [] = false
all_continuation (suc n) (b ∷ rest) = is_continuation b && all_continuation n rest

-- The bound checks per RFC 3629 on the second byte.
pub second_ok : ℕ → ℕ → ℕ → Bool
second_ok w lead b1 =
    if w == 2
    then true
    else if w == 3
    then not (lead == 0xE0 && ltb b1 0xA0) && not (lead == 0xED && leb 0xA0 b1)
    else not (lead == 0xF0 && ltb b1 0x90) && not (lead == 0xF4 && ltb 0x8F b1)

-- One round of the loop of `valid`: what is left after the sequence, `none` for `return false`.
pub check_seq : ℕ → Bytes → Option Bytes
check_seq lead rest =
    let w = seq_len lead in
    if ltb lead 0x80
    then some rest
    else if w == 0 || ltb (length rest + 1) w
    then none
    else if second_ok w lead (get_or rest 0 0) && all_continuation (w - 1) rest
    then some (drop (w - 1) rest)
    else none

-- The loop of `valid`: each round takes a byte at least, so the bytes left bound the rounds.
pub valid_from : ℕ → Bytes → Bool
valid_from fuel [] = true
valid_from zero (lead ∷ rest) = false
valid_from (suc fuel) (lead ∷ rest) = elim (check_seq lead rest) [
  | none ↦ false
  | some left ↦ valid_from fuel left
]

pub valid : Bytes → Bool
valid s = valid_from (length s) s
