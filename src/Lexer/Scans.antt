-- ===== src/Lexer/Scans.antt =====
-- The tokens of src/frontend/lexer.c: what a call steps over, and what it says of it.
use scorivm.Base.Lists.{All, All-append}
use scorivm.Base.Logic.{Bytes, codes, ◌==◌, if◌then◌else◌, if-elim, Bool-cases, Option-cases}
use scorivm.Base.{
  ℕ, ◌≡◌, refl, inl, inr, Bool, true, false, not, ◌&&◌, ◌||◌, Option, none, some, [], ◌∷◌, ◌++◌,
  arith,
}
use scorivm.Lexer.Moves.{
  Moves, Moves-refl, Moves-trans, advance-Moves, NotFeed, advance_while-Moves,
}
use scorivm.Lexer.{
  Lexer, head, tail, peek, is_at_end, peek_next, advance, advance_while, match_char, make_token,
  emit, identifier, decimal, number, operator, digits_of, choose, choose_two, shift, isdigit,
  between, one_of, isxdigit,
}
use scorivm.Token.{
  Token, TokenKind, tk_amp, tk_amp_assign, tk_arrow, tk_assign, tk_caret, tk_caret_assign, tk_colon,
  tk_comma, tk_dot, tk_eq, tk_float_const, tk_gt, tk_gte, tk_int_const, tk_lbrace, tk_lbracket,
  tk_logic_and, tk_logic_not, tk_logic_or, tk_lparen, tk_lt, tk_lte, tk_minus, tk_minus_assign,
  tk_mod, tk_mod_assign, tk_neq, tk_pipe, tk_pipe_assign, tk_plus, tk_plus_assign, tk_rbrace,
  tk_rbracket, tk_rparen, tk_semi, tk_shl, tk_shl_assign, tk_shr, tk_shr_assign, tk_slash,
  tk_slash_assign, tk_star, tk_star_assign, tk_tilde, tk_unknown,
}

-- A token of the bytes stepped over, none of which is a line feed.
unfoldable pub Plain : Lexer → Token × Lexer → Type 0
Plain l (t, m) =
    (text : Bytes) × (k : TokenKind) × Moves l m text × All NotFeed text × (t ≡ make_token m k)

emit-Plain : (k : TokenKind) (l : Lexer) → Plain l (emit k l)
unfolding Plain
emit-Plain k l = ([], k, Moves-refl l, tt, refl)

-- More bytes in front.
pub Plain-after :
    (l m : Lexer) (a : Bytes) (r : Token × Lexer)
    → Moves l m a
    → All NotFeed a
    → Plain m r
    → Plain l r
unfolding Plain
Plain-after l m a (t, n) v p (text, k, w, q, e) =
    (a ++ text, k, Moves-trans l m n a text v w, All-append NotFeed a text p q, e)

pub head-cons : (bs : Bytes) → (head bs == 0) ≡ false → bs ≡ head bs ∷ tail bs
head-cons [] h = absurd (ground arith)
head-cons (c ∷ cs) h = refl

pub step-Plain :
    (l : Lexer) (r : Token × Lexer)
    → is_at_end l ≡ false
    → NotFeed (peek l)
    → Plain (advance l) r
    → Plain l r
step-Plain l r h n p =
    let one = advance-Moves l (peek l) (tail l.current) (head-cons l.current h) n in
    Plain-after l (advance l) (peek l ∷ []) r one (n, tt) p

-- A `match` of a byte that is neither a line feed nor the terminator.
match_char-Plain :
    (l : Lexer) (c : ℕ) (hit : Lexer → Token × Lexer) (miss : Token × Lexer)
    → (c == 10) ≡ false
    → (c == 0) ≡ false
    → ((m : Lexer) → Plain m (hit m))
    → Plain l miss
    → Plain l (let (b, m) = match_char l c in if b then hit m else miss)
match_char-Plain l c hit miss h z p q = elim (Bool-cases (is_at_end l || not (peek l == c))) [
  | inl missed ↦ rw missed q
  | inr matched ↦
      rw matched (step-Plain l (hit (advance l)) (ground arith) (ground arith) (p (advance l)))
]

choose-Plain :
    (c : ℕ) (k j : TokenKind) (l : Lexer)
    → (c == 10) ≡ false
    → (c == 0) ≡ false
    → Plain l (choose c k j l)
choose-Plain c k j l h z = elim (Bool-cases (is_at_end l || not (peek l == c))) [
  | inl missed ↦ rw missed (emit-Plain j l)
  | inr matched ↦
      rw matched
        (step-Plain l (emit k (advance l)) (ground arith) (ground arith) (emit-Plain k (advance l)))
]

choose_two-Plain :
    (c : ℕ) (k : TokenKind) (d : ℕ) (j i : TokenKind) (l : Lexer)
    → (c == 10) ≡ false
    → (c == 0) ≡ false
    → (d == 10) ≡ false
    → (d == 0) ≡ false
    → Plain l (choose_two c k d j i l)
choose_two-Plain c k d j i l h z h' z' =
    match_char-Plain l c (λ m. emit k m) _ h z (λ m. emit-Plain k m) (choose-Plain d j i l h' z')

shift-Plain :
    (c : ℕ) (k j i o : TokenKind) (l : Lexer)
    → (c == 10) ≡ false
    → (c == 0) ≡ false
    → Plain l (shift c k j i o l)
shift-Plain c k j i o l h z =
    match_char-Plain l 61 (λ m. emit k m) _ refl refl (λ m. emit-Plain k m)
      (match_char-Plain l c (λ m. choose 61 j i m) _ h z (λ m. choose-Plain 61 j i m refl refl)
        (emit-Plain o l))

while-Plain :
    (p : ℕ → Bool) (k : TokenKind) (l : Lexer)
    → ((c : ℕ) → p c ≡ true → NotFeed c)
    → Plain l (emit k (advance_while p l.current l))
unfolding Plain
while-Plain p k l h =
    let (text, v, plain) = advance_while-Moves p h l.current l refl in (text, k, v, plain, refl)

pub identifier-Plain : (l : Lexer) → Plain l (identifier l)
unfolding identifier
identifier-Plain l = while-Plain _ _ l (λ c h. ground arith)

-- A loop, and a token after it.
after_while-Plain :
    (p : ℕ → Bool) (l : Lexer) (r : Token × Lexer)
    → ((c : ℕ) → p c ≡ true → NotFeed c)
    → Plain (advance_while p l.current l) r
    → Plain l r
after_while-Plain p l r h q =
    let (text, v, plain) = advance_while-Moves p h l.current l refl in
    Plain-after l (advance_while p l.current l) text r v plain q

pub decimal-Plain : (l : Lexer) → Plain l (decimal l)
unfolding decimal
decimal-Plain l =
    let m = advance_while isdigit l.current l in
    after_while-Plain isdigit l (decimal l) (λ c h. ground arith)
      (elim (Bool-cases (peek m == 46 && isdigit (peek_next m))) [
        | inl point ↦
            rw (point, decimal)
              (step-Plain m _ (ground arith) (ground arith)
                (while-Plain isdigit tk_float_const (advance m) (λ c h. ground arith)))
        | inr whole ↦ rw (whole, decimal) (emit-Plain tk_int_const m)
      ])

-- The digits of a prefix are no line feeds.
IsDigits : Option (ℕ → Bool) → Type 0
IsDigits none = Unit
IsDigits (some p) = (c : ℕ) → p c ≡ true → NotFeed c

some-IsDigits : (p : ℕ → Bool) → ((c : ℕ) → p c ≡ true → NotFeed c) → IsDigits (some p)
unfolding IsDigits
some-IsDigits p h = h

none-IsDigits : IsDigits none
unfolding IsDigits
none-IsDigits = tt

digits_of-IsDigits : (c : ℕ) → IsDigits (digits_of c)
digits_of-IsDigits c =
    let roman =
      some-IsDigits (λ d. not (d == 0) && one_of (codes "IVXLCDMivxlcdm") d)
        (λ d h. ground arith) in
    if-elim IsDigits _ _ _ (some-IsDigits isxdigit (λ d h. ground arith)) (
      if-elim IsDigits _ _ _ (some-IsDigits (λ d. d == 48 || d == 49) (λ d h. ground arith)) (
        if-elim IsDigits _ _ _ (some-IsDigits (between 48 55) (λ d h. ground arith))
          (if-elim IsDigits _ _ _ roman none-IsDigits)))

pub number-Plain : (l : Lexer) → Plain l (number l)
unfolding number IsDigits
number-Plain l =
    if-elim (Plain l) (head l.start == 48) _ _
      (elim (Option-cases (digits_of (peek l))) [
        | inl plain ↦ rw (plain, number) (decimal-Plain l)
        | inr (p, prefix) ↦
            let digits = rw prefix at (digits_of-IsDigits (peek l)) in
            rw (prefix, number)
              (step-Plain l _ (ground arith) (ground arith)
                (while-Plain p tk_int_const (advance l) digits))
      ])
      (decimal-Plain l)

missed-Plain :
    (l : Lexer) (b : Bool) (x y : Token × Lexer)
    → b ≡ false
    → Plain l y
    → Plain l (if b then x else y)
missed-Plain l b x y h p = rw h p

pub operator-Plain :
    (c : ℕ) (l : Lexer) → (c == 34) ≡ false → (c == 39) ≡ false → Plain l (operator c l)
unfolding operator
operator-Plain c l h h' = if-elim (Plain l) (c == 40) _ _ (emit-Plain tk_lparen l) (
    if-elim (Plain l) (c == 41) _ _ (emit-Plain tk_rparen l) (
      if-elim (Plain l) (c == 123) _ _ (emit-Plain tk_lbrace l) (
        if-elim (Plain l) (c == 125) _ _ (emit-Plain tk_rbrace l) (
          if-elim (Plain l) (c == 91) _ _ (emit-Plain tk_lbracket l) (
            if-elim (Plain l) (c == 93) _ _ (emit-Plain tk_rbracket l) (
              if-elim (Plain l) (c == 59) _ _ (emit-Plain tk_semi l) (
                if-elim (Plain l) (c == 44) _ _ (emit-Plain tk_comma l) (
                  if-elim (Plain l) (c == 58) _ _ (emit-Plain tk_colon l) (
                    if-elim (Plain l) (c == 46) _ _ (emit-Plain tk_dot l) (
                      if-elim (Plain l) (c == 126) _ _ (emit-Plain tk_tilde l) (
                        if-elim (Plain l) (c == 43) _ _
                          (choose-Plain 61 tk_plus_assign tk_plus l refl refl)
                          (if-elim (Plain l) (c == 42) _ _
                            (choose-Plain 61 tk_star_assign tk_star l refl refl)
                            (if-elim (Plain l) (c == 47) _ _
                              (choose-Plain 61 tk_slash_assign tk_slash l refl refl)
                              (if-elim (Plain l) (c == 37) _ _
                                (choose-Plain 61 tk_mod_assign tk_mod l refl refl)
                                (if-elim (Plain l) (c == 94) _ _
                                  (choose-Plain 61 tk_caret_assign tk_caret l refl refl)
                                  (if-elim (Plain l) (c == 45) _ _
                                    (choose_two-Plain 62 tk_arrow 61 tk_minus_assign tk_minus l refl
                                      refl refl refl)
                                    (if-elim (Plain l) (c == 33) _ _
                                      (choose-Plain 61 tk_neq tk_logic_not l refl refl)
                                      (if-elim (Plain l) (c == 61) _ _
                                        (choose-Plain 61 tk_eq tk_assign l refl refl)
                                        (if-elim (Plain l) (c == 38) _ _
                                          (choose_two-Plain 38 tk_logic_and 61 tk_amp_assign tk_amp
                                            l refl refl refl refl)
                                          (if-elim (Plain l) (c == 124) _ _
                                            (choose_two-Plain 124 tk_logic_or 61 tk_pipe_assign
                                              tk_pipe l refl refl refl refl)
                                            (if-elim (Plain l) (c == 60) _ _
                                              (shift-Plain 60 tk_lte tk_shl_assign tk_shl tk_lt l
                                                refl refl)
                                              (if-elim (Plain l) (c == 62) _ _
                                                (shift-Plain 62 tk_gte tk_shr_assign tk_shr tk_gt l
                                                  refl refl)
                                                ((missed-Plain l (c == 34) _ _ h (
                                                  missed-Plain l (c == 39) _ _ h' (
                                                    emit-Plain tk_unknown
                                                      l))))))))))))))))))))))))))
