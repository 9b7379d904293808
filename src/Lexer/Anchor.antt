-- ===== src/Lexer/Anchor.antt =====
-- The line and the column of a token of src/frontend/lexer.c.
use mathlib.Core.Path.{subst}
use scorivm.Base.Lists.{length, length-append, All}
use scorivm.Base.Logic.{Bytes, Bool-cases}
use scorivm.Base.{
  ℕ, ◌+◌, ◌-◌, ◌%◌, ◌^◌, ◌<◌, ◌≡◌, refl, sym, ap, ◌∙◌, inl, inr, false, none, [], ◌∷◌, ◌++◌, arith,
}
use scorivm.Lexer.Moves.{
  position_after, position_after-append, position, step_position, Moves, Moves-refl, NotFeed,
}
use scorivm.Lexer.Next.{skip-Moves, Covers, is_quote, here-ends, here-Plain, make_token-Covers}
use scorivm.Lexer.Scans.{Plain}
use scorivm.Lexer.{
  Lexer, next, peek, is_at_end, make_token, span, token_here, skip_whitespace, skip_step, skip_loop,
  operator, quoted, quoted_loop, quoted_step, lexer_next_token,
}
use scorivm.Token.{Token, TokenKind, tk_eof}

-- Bytes that are no line feeds are counted in columns.
plain_position :
    (text : Bytes) (line column : ℕ)
    → column < 2 ^ 32
    → All NotFeed text
    → position_after text (line, column) ≡ (line, (column + length text) % 2 ^ 32)
unfolding position_after step_position
plain_position [] line column h p = ap (λ (c : ℕ). (line, c)) (omega arith)
plain_position (c ∷ cs) line column h (n, p) =
    let column_of : ℕ → ℕ × ℕ = λ k. (line, k) in
    rw (n, step_position)
      (plain_position cs line (next column) (omega arith) p ∙ ap column_of (omega arith))

column_bound : (text : Bytes) (p : ℕ × ℕ) → p.1 < 2 ^ 32 → (position_after text p).1 < 2 ^ 32
unfolding position_after step_position
column_bound [] p h = h
column_bound (c ∷ cs) (line, column) h =
    column_bound cs (step_position c (line, column)) (ground arith)

stops-NotFeed : (l : Lexer) → skip_step l ≡ none → NotFeed (peek l)
unfolding skip_step
stops-NotFeed l h = ground arith

-- The position that a token gives is the one of its first byte.
anchor :
    (l m : Lexer) (k : TokenKind) (text : Bytes)
    → l.start ≡ l.current
    → l.column < 2 ^ 32
    → Moves l m text
    → All NotFeed text
    → (((make_token m k).line, (make_token m k).column) ≡ position l)
unfolding make_token
anchor l m k text at h v p =
    let size = length-append text m.current in
    let whole = ap (λ (x : Bytes). length x) (v.same_start ∙ at ∙ v.split) in
    let moved = v.moved ∙ plain_position text l.line l.column h p in
    let line = ap (λ (x : ℕ × ℕ). x.0) moved in
    let column = ap (λ (x : ℕ × ℕ). x.1) moved in
    let spanned : span m ≡ length text = omega arith in
    let back : (m.column + (2 ^ 32 - span m % 2 ^ 32)) % 2 ^ 32 ≡ l.column = omega arith in
    ap (λ (c : ℕ). (m.line, c)) back ∙ ap (λ (n : ℕ). (n, l.column)) line

-- A token whose text, given by its bytes, begins where its line and column say.
pub Anchored : Lexer → Token × Lexer → Bytes → Type 0
Anchored l (t, n) text =
    (l.current ≡ text ++ n.current)
    × Covers n.current t text
    × ((t.line, t.column) ≡ position l)
    × (position n ≡ position_after text (position l))

Plain-Anchored :
    (l : Lexer) (r : Token × Lexer)
    → l.start ≡ l.current
    → l.column < 2 ^ 32
    → Plain l r
    → (text : Bytes) × Anchored l r text
unfolding Anchored Plain
Plain-Anchored l (t, n) at h (text, k, v, p, e) = (
  text,
  (
    v.split,
    subst (λ x. Covers n.current x text) (sym e)
        (make_token-Covers l n k text at v.split v.same_start),
    subst (λ (x : Token). (x.line, x.column) ≡ position l) (sym e) (anchor l n k text at h v p),
    v.moved,
  ),
)

here-Anchored :
    (l : Lexer)
    → l.start ≡ l.current
    → l.column < 2 ^ 32
    → is_quote (peek l) ≡ false
    → NotFeed (peek l)
    → (text : Bytes) × Anchored l (token_here l) text
unfolding Anchored position_after
here-Anchored l at h q n = elim (Bool-cases (is_at_end l)) [
  | inl ended ↦ rw (here-ends l ended) (
    [],
    (
      refl,
      make_token-Covers l l tk_eof [] at refl refl,
      anchor l l tk_eof [] at h (Moves-refl l) tt,
      refl,
    ),
  )
  | inr more ↦ Plain-Anchored l (token_here l) at h (here-Plain l more q n)
]

-- Unless it begins with a quote, a token gives the line and the column of its first byte, counted
-- from those of the scanner through everything stepped over before, and so does the scanner after.
pub next_token-Anchored :
    (l : Lexer)
    → l.column < 2 ^ 32
    → is_quote (peek (skip_whitespace l)) ≡ false
    → let (t, n) = lexer_next_token l in
      (blanks text : Bytes) × (l.current ≡ blanks ++ (text ++ n.current))
      × Covers n.current t text
      × ((t.line, t.column) ≡ position_after blanks (position l))
      × (position n ≡ position_after (blanks ++ text) (position l))
unfolding lexer_next_token Anchored
next_token-Anchored l h q =
    let m = skip_whitespace l in
    let (blanks, v, stops) = skip-Moves l in
    let bound = column_bound blanks (position l) h in
    let near : m.column < 2 ^ 32 = omega (arith, ap (λ (x : ℕ × ℕ). x.1) v.moved, bound) in
    let (text, (split, covers, begins, ends)) =
      here-Anchored (record m { start = m.current }) refl near q (stops-NotFeed m stops) in
    (
      blanks,
      text,
      v.split ∙ ap (λ (x : Bytes). blanks ++ x) split,
      covers,
      begins ∙ v.moved,
      ends
          ∙ ap (position_after text) v.moved
          ∙ sym (position_after-append blanks text (position l)),
    )

-- A string whose only byte is a line feed gives the line in which it ends and the column 2 ^ 32 - 1:
-- its length is subtracted from a column that began anew.
pub feed_in_string-wraps :
    (start rest : Bytes) (line column : ℕ)
    → let l : Lexer = record {
      start = start;
      current = 34 ∷ 10 ∷ 34 ∷ rest;
      line = line;
      column = column;
    } in
      let (t, n) = lexer_next_token l in
      (t.line ≡ next line) × (t.column ≡ 2 ^ 32 - 1) × (n.current ≡ rest)
unfolding lexer_next_token skip_whitespace skip_loop skip_step token_here operator quoted
    quoted_loop quoted_step make_token
feed_in_string-wraps start rest line column = (refl, omega arith, refl)

-- A string of a backslash and a line feed is stepped over and leaves the scanner's line as it was,
-- where counting line feeds gives the next line.
pub escaped_feed-uncounted :
    (start rest : Bytes) (line column : ℕ)
    → let text : Bytes = 34 ∷ 92 ∷ 10 ∷ 34 ∷ [] in
      let l : Lexer = record {
        start = start;
        current = text ++ rest;
        line = line;
        column = column;
      } in
      let n = (lexer_next_token l).1 in
      (n.current ≡ rest) × (n.line ≡ line) × ((position_after text (position l)).0 ≡ next line)
unfolding lexer_next_token skip_whitespace skip_loop skip_step token_here operator quoted
    quoted_loop quoted_step make_token position_after step_position
escaped_feed-uncounted start rest line column = (refl, refl, refl)
