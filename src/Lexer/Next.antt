-- ===== src/Lexer/Next.antt =====
-- One call of `lexer_next_token` of src/frontend/lexer.c, and the calls one after the other.
use mathlib.Core.Path.{subst}
use scorivm.Base.Lists.{length, length-append}
use scorivm.Base.Logic.{Bytes, ◌==◌, Bool-cases, if-elim}
use scorivm.Base.{
  ℕ, zero, suc, ◌%◌, ◌^◌, ◌≤◌, ◌<◌, ◌≡◌, refl, sym, ap, ◌∙◌, ◌⊎◌, inl, inr, Bool, true, false, ◌||◌,
  none, [], ◌∷◌, ◌++◌, arith,
}
use scorivm.Lexer.Consumes.{byte-Consumes, Scans, Consumes-trans, Plain-Scans, operator-Scans}
use scorivm.Lexer.Moves.{Moves, NotFeed, skip_loop-Moves, skip_loop-stops, skip_loop-at_end}
use scorivm.Lexer.Scans.{Plain, step-Plain, identifier-Plain, number-Plain, operator-Plain}
use scorivm.Lexer.{
  Lexer, head, peek, is_at_end, advance, make_token, span, emit, identifier, number, token_here,
  skip_whitespace, skip_step, lexer_next_token, isalpha, isdigit,
}
use scorivm.Token.{Token, TokenKind, tk_eof}

-- `skip_whitespace` stops at a byte that is no space and begins no comment, and counts the lines
-- and columns of what it steps over.
pub skip-Moves :
    (l : Lexer)
    → (text : Bytes) × Moves l (skip_whitespace l) text × (skip_step (skip_whitespace l) ≡ none)
unfolding skip_whitespace
skip-Moves l =
    let (text, v) = skip_loop-Moves (length l.current) l in
    (text, v, skip_loop-stops (length l.current) l (omega arith))

-- What a token says of the bytes stepped over.
pub record Covers (rest : Bytes) (t : Token) (text : Bytes) : Type 0 where
  pub begins : t.start ≡ text ++ rest
  pub spans : t.length ≡ length text % 2 ^ 32

pub make_token-Covers :
    (l m : Lexer) (k : TokenKind) (text : Bytes)
    → l.start ≡ l.current
    → l.current ≡ text ++ m.current
    → m.start ≡ l.start
    → Covers m.current (make_token m k) text
unfolding make_token
make_token-Covers l m k text at split same =
    let begins : m.start ≡ text ++ m.current = same ∙ at ∙ split in
    let size = length-append text m.current in
    let whole = ap (λ (x : Bytes). length x) begins in
    let spanned : span m ≡ length text = omega arith in
    record { begins = begins; spans = ap (λ n. n % 2 ^ 32) spanned }

-- A token is at the end of the source and says so, or covers at least a byte.
unfoldable pub Ends : Token → Bytes → Bytes → Type 0
Ends t rest text = (t.kind ≡ tk_eof) × (text ≡ []) × (head rest ≡ 0)

pub here-ends : (l : Lexer) → is_at_end l ≡ true → token_here l ≡ emit tk_eof l
unfolding token_here
here-ends l h = rw (h, token_here) refl

here-Scans : (l : Lexer) → is_at_end l ≡ false → Scans (advance l) (token_here l)
unfolding token_here
here-Scans l h =
    let m = advance l in
    let c = peek l in
    rw (h, token_here)
      (if-elim (Scans m) (isalpha c || c == 95) _ _
        (Plain-Scans m (identifier m) (identifier-Plain m))
        (if-elim (Scans m) (isdigit c) _ _ (Plain-Scans m (number m) (number-Plain m))
          (operator-Scans c m)))

-- What a call reports, and where it leaves the scanner, after white space.
pub Splits : Lexer → Token × Lexer → Bytes → Type 0
Splits l (t, m) text =
    (l.current ≡ text ++ m.current)
    × Covers m.current t text
    × (Ends t m.current text ⊎ (0 < length text))

Scans-Splits :
    (l : Lexer) (r : Token × Lexer)
    → l.start ≡ l.current
    → is_at_end l ≡ false
    → Scans (advance l) r
    → (text : Bytes) × Splits l r text
unfolding Scans Splits
Scans-Splits l (t, m) at h (text, k, v, e) =
    let c = Consumes-trans l (advance l) m (peek l ∷ []) text (byte-Consumes l h) v in
    (
      peek l ∷ text,
      (
        c.split,
        subst (λ x. Covers m.current x (peek l ∷ text)) (sym e)
            (make_token-Covers l m k (peek l ∷ text) at c.split c.same_start),
        inr (omega arith),
      ),
    )

token_here-Splits :
    (l : Lexer) → l.start ≡ l.current → (text : Bytes) × Splits l (token_here l) text
unfolding Splits Ends make_token
token_here-Splits l at = elim (Bool-cases (is_at_end l)) [
  | inl ended ↦
      rw (here-ends l ended)
        ([], (refl, make_token-Covers l l tk_eof [] at refl refl, inl (refl, refl, ground arith)))
  | inr more ↦ Scans-Splits l (token_here l) at more (here-Scans l more)
]

-- A call splits the source into what is skipped, the text that the token covers, and the rest
-- where the scanner stands; the text has at least a byte unless the end of the source is reported
-- there.
pub next_token-Splits :
    (l : Lexer)
    → let (t, m) = lexer_next_token l in
      (blanks text : Bytes) × (l.current ≡ blanks ++ (text ++ m.current))
      × Covers m.current t text
      × (Ends t m.current text ⊎ (0 < length text))
unfolding lexer_next_token Splits
next_token-Splits l =
    let m = skip_whitespace l in
    let (blanks, v, stops) = skip-Moves l in
    let (text, (split, covers, progress)) =
      token_here-Splits (record m { start = m.current }) refl in
    (blanks, text, v.split ∙ ap (λ (x : Bytes). blanks ++ x) split, covers, progress)

-- The token of the call after `n` others.
unfoldable pub nth_token : ℕ → Lexer → Token × Lexer
nth_token zero l = lexer_next_token l
nth_token (suc n) l = nth_token n (lexer_next_token l).1

-- Every call steps over at least a byte, or it reports the end of the source and is there.
next_token-shortens :
    (l : Lexer)
    → let (t, m) = lexer_next_token l in
      ((t.kind ≡ tk_eof) × (peek m ≡ 0)) ⊎ (length m.current < length l.current)
unfolding Ends
next_token-shortens l =
    let (blanks, text, split, covers, progress) = next_token-Splits l in
    elim progress [
      | inl ended ↦ inl (ended.0, ended.2)
      | inr longer ↦ inr (
          omega (
            arith,
            ap (λ (x : Bytes). length x) split,
            length-append blanks (text ++ (lexer_next_token l).1.current),
            length-append text (lexer_next_token l).1.current,
          ))
    ]

next_token-at_end :
    (l : Lexer) → peek l ≡ 0 → let (t, m) = lexer_next_token l in (t.kind ≡ tk_eof) × (peek m ≡ 0)
unfolding lexer_next_token skip_whitespace make_token
next_token-at_end l h =
    rw (skip_loop-at_end (length l.current) l h, skip_whitespace)
      (rw (here-ends (record l { start = l.current }) (ground arith)) (refl, h))

nth_token-at_end : (k : ℕ) (l : Lexer) → peek l ≡ 0 → (nth_token k l).0.kind ≡ tk_eof
unfolding nth_token
nth_token-at_end zero l h = (next_token-at_end l h).0
nth_token-at_end (suc k) l h = nth_token-at_end k (lexer_next_token l).1 (next_token-at_end l h).1

-- From the call on whose number is the length of the source, every call reports its end.
pub nth_token-reaches_eof :
    (k : ℕ) (l : Lexer) → length l.current ≤ k → (nth_token k l).0.kind ≡ tk_eof
unfolding nth_token
nth_token-reaches_eof zero l h = elim (next_token-shortens l) [
  | inl (ended, there) ↦ ended
  | inr shorter ↦ absurd (omega arith)
]
nth_token-reaches_eof (suc k) l h = elim (next_token-shortens l) [
  | inl (ended, there) ↦ nth_token-at_end k (lexer_next_token l).1 there
  | inr shorter ↦ nth_token-reaches_eof k (lexer_next_token l).1 (omega arith)
]

abbrev pub is_quote : ℕ → Bool
is_quote c = c == 34 || c == 39

pub here-Plain :
    (l : Lexer)
    → is_at_end l ≡ false
    → is_quote (peek l) ≡ false
    → NotFeed (peek l)
    → Plain l (token_here l)
unfolding token_here
here-Plain l h q n =
    let m = advance l in
    let c = peek l in
    let double : (c == 34) ≡ false = ground arith in
    let single : (c == 39) ≡ false = ground arith in
    step-Plain l (token_here l) h n (
      rw (h, token_here)
        (if-elim (Plain m) (isalpha c || c == 95) _ _ (identifier-Plain m)
          (if-elim (Plain m) (isdigit c) _ _ (number-Plain m) (operator-Plain c m double single))))
