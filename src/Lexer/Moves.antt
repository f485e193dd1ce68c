-- ===== src/Lexer/Moves.antt =====
-- src/frontend/Lexer.cpp: what scanning may do to the lexer. A scan function only advances and
-- reports; facts about the lexer are then proved once, by induction on these moves.
use Prim.Native.String.{String}
use my_llvm_c.Prelude.{ℕ, Bool, true, false, if◌then◌else◌, zero, suc}
use my_llvm_c.Diagnostic.{DiagnosticCode}
use my_llvm_c.Lexer.State.{
  Lexer, advance, report, report_token, advance_while_fuel, advance_while, remaining,
}
use my_llvm_c.Lexer.Trivia.{
  in_line, advance_next_line, at_space, skip_whitespace, in_block_comment, skip_block_comment,
  skip_comment_fuel, skip_comment, skip_trivia_fuel, skip_trivia,
}
use my_llvm_c.Lexer.Quoted.{
  unterminated, loop_fuel, loop, in_braces, unicode_escape, quoted_round, raw_round,
  multiline_round,
}

pub data Moves (a : Lexer) : Lexer → Type 0 where
  stay : Moves a a
  step : {b : Lexer} → Moves a b → Moves a (advance b)
  tell :
      (code : DiagnosticCode) (msg : String) (line col : ℕ) {b : Lexer}
      → Moves a b
      → Moves a (report code msg line col b)

pub Moves-trans : {a b c : Lexer} → Moves a b → Moves b c → Moves a c
Moves-trans m stay = m
Moves-trans m (step n) = step (Moves-trans m n)
Moves-trans m (tell code msg line col n) = tell code msg line col (Moves-trans m n)

module _ {a : Lexer} where
  pub Moves-if : (b : Bool) {x y : Lexer} → Moves a x → Moves a y → Moves a (if b then x else y)
  Moves-if true m n = m
  Moves-if false m n = n

  pub Moves-if_pair {κ} :
      {B : Type κ} (b : Bool) (x y : Lexer × B)
      → Moves a x.0
      → Moves a y.0
      → Moves a (if b then x else y).0
  Moves-if_pair true x y m n = m
  Moves-if_pair false x y m n = n

  pub report_token-Moves :
      (code : DiagnosticCode) (msg : String) {b : Lexer}
      → Moves a b
      → Moves a (report_token code msg b)
  unfolding report_token
  report_token-Moves code msg m = tell code msg _ _ m

  pub advance_while_fuel-Moves :
      (test : Lexer → Bool) (fuel : ℕ) {b : Lexer}
      → Moves a b
      → Moves a (advance_while_fuel test fuel b)
  unfolding advance_while_fuel
  advance_while_fuel-Moves test zero m = m
  advance_while_fuel-Moves test (suc fuel) m =
      Moves-if _ (advance_while_fuel-Moves test fuel (step m)) m

  pub advance_while-Moves :
      (test : Lexer → Bool) {b : Lexer} → Moves a b → Moves a (advance_while test b)
  unfolding advance_while
  advance_while-Moves test m = advance_while_fuel-Moves test _ m

  pub advance_next_line-Moves : {b : Lexer} → Moves a b → Moves a (advance_next_line b)
  unfolding advance_next_line
  advance_next_line-Moves m = step (advance_while-Moves in_line m)

  skip_block_comment-Moves : {b : Lexer} → Moves a b → Moves a (skip_block_comment b).0
  unfolding skip_block_comment
  skip_block_comment-Moves m =
      let inside = advance_while-Moves in_block_comment (step (step m)) in
      Moves-if_pair _ _ _ (tell _ _ _ _ inside) (step (step inside))

  skip_comment_fuel-Moves : (fuel : ℕ) {b : Lexer} → Moves a b → Moves a (skip_comment_fuel fuel b)
  unfolding skip_comment_fuel
  skip_comment_fuel-Moves zero m = m
  skip_comment_fuel-Moves (suc fuel) m =
      let block = skip_block_comment-Moves m in
      let line = skip_comment_fuel-Moves fuel (advance_next_line-Moves m) in
      let after = skip_comment_fuel-Moves fuel block in search (Moves-if, line, after, block)

  pub skip_whitespace-Moves : {b : Lexer} → Moves a b → Moves a (skip_whitespace b)
  unfolding skip_whitespace
  skip_whitespace-Moves m = advance_while-Moves at_space m

  pub skip_comment-Moves : {b : Lexer} → Moves a b → Moves a (skip_comment b)
  unfolding skip_comment
  skip_comment-Moves {b} m = skip_comment_fuel-Moves (suc (remaining b)) m

  skip_trivia_fuel-Moves : (fuel : ℕ) {b : Lexer} → Moves a b → Moves a (skip_trivia_fuel fuel b)
  unfolding skip_trivia_fuel
  skip_trivia_fuel-Moves zero m = m
  skip_trivia_fuel-Moves (suc fuel) m =
      let bare = skip_whitespace-Moves m in
      let rest = skip_trivia_fuel-Moves fuel (skip_comment-Moves bare) in Moves-if _ rest bare

  pub skip_trivia-Moves : {b : Lexer} → Moves a b → Moves a (skip_trivia b)
  unfolding skip_trivia
  skip_trivia-Moves {b} m = skip_trivia_fuel-Moves (suc (remaining b)) m

  pub loop_fuel-Moves :
      (body : Lexer → Lexer × Bool)
      → ((b : Lexer) → Moves a b → Moves a (body b).0)
      → (fuel : ℕ) (b : Lexer) → Moves a b
      → Moves a (loop_fuel body fuel b)
  unfolding loop_fuel
  loop_fuel-Moves body keep zero b m = m
  loop_fuel-Moves body keep (suc fuel) b m =
      let next = keep b m in Moves-if _ next (loop_fuel-Moves body keep fuel (body b).0 next)

  pub unicode_escape-Moves : {b : Lexer} → Moves a b → Moves a (unicode_escape b)
  unfolding unicode_escape
  unicode_escape-Moves m =
      let inside = advance_while-Moves in_braces (step (step m)) in
      search (Moves-if, step, inside, m)

  pub unterminated-Moves : (msg : String) {b : Lexer} → Moves a b → Moves a (unterminated msg b)
  unfolding unterminated
  unterminated-Moves msg m = report_token-Moves _ msg m

  pub quoted_round-Moves :
      (quote : ℕ) (msg : String) (b : Lexer) → Moves a b → Moves a (quoted_round quote msg b).0
  unfolding quoted_round
  quoted_round-Moves quote msg b m =
      search (Moves-if_pair, step, unterminated-Moves, unicode_escape-Moves, m) depth 9

  pub raw_round-Moves : (b : Lexer) → Moves a b → Moves a (raw_round b).0
  unfolding raw_round
  raw_round-Moves b m = search (Moves-if_pair, step, unterminated-Moves, m)

  pub multiline_round-Moves : (b : Lexer) → Moves a b → Moves a (multiline_round b).0
  unfolding multiline_round
  multiline_round-Moves b m = search (Moves-if_pair, step, unterminated-Moves, m)

  pub loop-Moves :
      (body : Lexer → Lexer × Bool)
      → ((b : Lexer) → Moves a b → Moves a (body b).0)
      → {b : Lexer} → Moves a b
      → Moves a (loop body b)
  unfolding loop
  loop-Moves body keep {b} m = loop_fuel-Moves body keep (suc (remaining b)) b m
