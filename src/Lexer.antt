-- ===== src/Lexer.antt =====
-- The scanner: src/frontend/lexer.c. The pointers `start` and `current` are the source from there to
-- its end; the byte behind the end is the terminator 0. `line` and `column` wrap at 2 ^ 32.
mod Moves
mod Scans
mod Consumes
mod Next
mod Anchor
mod Tests
use scorivm.Base.Lists.{length}
use scorivm.Base.Logic.{Bytes, codes, ltb, leb, ◌==◌, if◌then◌else◌}
use scorivm.Base.{
  ℕ, zero, suc, ◌+◌, ◌-◌, ◌%◌, ◌^◌, ◌≡◌, Bool, true, false, not, ◌&&◌, ◌||◌, Option, none, some,
  List, [], ◌∷◌,
}
use scorivm.Token.Keywords.{identifier_type}
use scorivm.Token.{
  TokenKind, Token, tk_amp, tk_amp_assign, tk_arrow, tk_assign, tk_caret, tk_caret_assign,
  tk_char_const, tk_colon, tk_comma, tk_dot, tk_eof, tk_eq, tk_float_const, tk_gt, tk_gte,
  tk_int_const, tk_lbrace, tk_lbracket, tk_logic_and, tk_logic_not, tk_logic_or, tk_lparen, tk_lt,
  tk_lte, tk_minus, tk_minus_assign, tk_mod, tk_mod_assign, tk_neq, tk_pipe, tk_pipe_assign,
  tk_plus, tk_plus_assign, tk_rbrace, tk_rbracket, tk_rparen, tk_semi, tk_shl, tk_shl_assign,
  tk_shr, tk_shr_assign, tk_slash, tk_slash_assign, tk_star, tk_star_assign, tk_string_const,
  tk_tilde, tk_unknown,
}

pub record Lexer : Type 0 where
  pub start : Bytes
  pub current : Bytes
  pub line : ℕ
  pub column : ℕ

-- The next value of a `uint32_t`.
abbrev pub next : ℕ → ℕ
next n = (n + 1) % 2 ^ 32

abbrev pub head : Bytes → ℕ
head [] = 0
head (c ∷ cs) = c

abbrev pub tail : Bytes → Bytes
tail [] = []
tail (c ∷ cs) = cs

abbrev pub peek : Lexer → ℕ
peek l = head l.current

abbrev pub is_at_end : Lexer → Bool
is_at_end l = peek l == 0

abbrev pub peek_next : Lexer → ℕ
peek_next l = if is_at_end l then 0 else head (tail l.current)

-- `advance` is called with a byte to read only.
abbrev pub advance : Lexer → Lexer
advance l = record l { current = tail l.current; column = next l.column }

abbrev pub match_char : Lexer → ℕ → Bool × Lexer
match_char l expected =
    if is_at_end l || not (peek l == expected) then (false, l) else (true, advance l)

-- The bytes from `start` to `current`.
abbrev pub take : ℕ → Bytes → Bytes
take zero xs = []
take (suc n) [] = []
take (suc n) (x ∷ xs) = x ∷ take n xs

abbrev pub span : Lexer → ℕ
span l = length l.start - length l.current

pub make_token : Lexer → TokenKind → Token
make_token l k = record {
  kind = k;
  start = l.start;
  length = span l % 2 ^ 32;
  line = l.line;
  column = (l.column + (2 ^ 32 - span l % 2 ^ 32)) % 2 ^ 32;
}

-- The functions of <ctype.h> in the C locale.
abbrev pub between : ℕ → ℕ → ℕ → Bool
between lo hi c = leb lo c && leb c hi

abbrev pub isdigit : ℕ → Bool
isdigit c = between 48 57 c

abbrev pub isalpha : ℕ → Bool
isalpha c = between 65 90 c || between 97 122 c

abbrev pub isxdigit : ℕ → Bool
isxdigit c = isdigit c || between 65 70 c || between 97 102 c

-- `while (p(peek(lexer))) advance(lexer);` for a test that the terminator fails.
pub advance_while : (ℕ → Bool) → Bytes → Lexer → Lexer
advance_while p [] l = l
advance_while p (c ∷ cs) l =
    if p c then advance_while p cs (record l { current = cs; column = next l.column }) else l

-- The two lines on a line feed before it is stepped over, and the step.
abbrev pub new_line : Lexer → Lexer
new_line l = advance (record l { line = next l.line; column = 0 })

-- One turn of the loop of `skip_whitespace`; `none` where it returns.
pub skip_step : Lexer → Option Lexer
skip_step l =
    let c = peek l in
    if c == 32 || c == 13 || c == 9
    then some (advance l)
    else if c == 10
    then some (new_line l)
    else if c == 47 && peek_next l == 47
    then some (advance_while (λ b. not (b == 10) && not (b == 0)) l.current l)
    else none

pub skip_loop : ℕ → Lexer → Lexer
skip_loop zero l = l
skip_loop (suc f) l = elim (skip_step l) [ none ↦ l | some m ↦ skip_loop f m ]

-- Every turn steps over a byte, so their number is fuel enough.
pub skip_whitespace : Lexer → Lexer
skip_whitespace l = skip_loop (length l.current) l

abbrev pub emit : TokenKind → Lexer → Token × Lexer
emit k l = (make_token l k, l)

pub identifier : Lexer → Token × Lexer
identifier l =
    let m = advance_while (λ c. isalpha c || isdigit c || c == 95) l.current l in
    emit (identifier_type (take (span m) m.start)) m

-- `strchr` in the Roman digits.
abbrev pub one_of : Bytes → ℕ → Bool
one_of [] c = false
one_of (x ∷ xs) c = if c == x then true else one_of xs c

-- The digits after a prefix, if the letter is one.
abbrev pub digits_of : ℕ → Option (ℕ → Bool)
digits_of c =
    if c == 120 || c == 88
    then some isxdigit
    else if c == 98 || c == 66
    then some (λ d. d == 48 || d == 49)
    else if c == 111 || c == 79
    then some (between 48 55)
    else if c == 114 || c == 82
    then some (λ d. not (d == 0) && one_of (codes "IVXLCDMivxlcdm") d)
    else none

-- The decimal digits, and a fraction where a digit follows the point.
pub decimal : Lexer → Token × Lexer
decimal l =
    let m = advance_while isdigit l.current l in
    if peek m == 46 && isdigit (peek_next m)
    then (let n = advance m in emit tk_float_const (advance_while isdigit n.current n))
    else emit tk_int_const m

pub number : Lexer → Token × Lexer
number l =
    if head l.start == 48
    then elim (digits_of (peek l)) [
      | some p ↦ (let m = advance l in emit tk_int_const (advance_while p m.current m))
      | none ↦ decimal l
    ]
    else decimal l

-- One turn of the loops of `string_const` and `char_const`; `none` where they end.
pub quoted_step : ℕ → Lexer → Option Lexer
quoted_step quote l =
    if is_at_end l || peek l == quote
    then none
    else if peek l == 10
    then some (new_line l)
    else if peek l == 92 && not (peek_next l == 0)
    then some (advance (advance l))
    else some (advance l)

pub quoted_loop : ℕ → ℕ → Lexer → Lexer
quoted_loop zero quote l = l
quoted_loop (suc f) quote l = elim (quoted_step quote l) [
  | none ↦ l
  | some m ↦ quoted_loop f quote m
]

-- The two functions differ in the quote and the kind.
pub quoted : ℕ → TokenKind → Lexer → Token × Lexer
quoted quote k l =
    let m = quoted_loop (length l.current) quote l in emit k (if is_at_end m then m else advance m)

-- `make_token(lexer, match(lexer, c) ? yes : no)`
abbrev pub choose : ℕ → TokenKind → TokenKind → Lexer → Token × Lexer
choose c hit miss l = let (b, m) = match_char l c in emit (if b then hit else miss) m

-- Two `match` tests one after the other.
abbrev pub choose_two : ℕ → TokenKind → ℕ → TokenKind → TokenKind → Lexer → Token × Lexer
choose_two c hit d other miss l =
    let (b, m) = match_char l c in if b then emit hit m else choose d other miss l

-- `<`, `<=`, `<<` and `<<=`, or the same with `>`.
abbrev pub shift : ℕ → TokenKind → TokenKind → TokenKind → TokenKind → Lexer → Token × Lexer
shift c with_equal shift_assign shift_only plain l =
    let (b, m) = match_char l 61 in
    if b
    then emit with_equal m
    else (let (d, n) = match_char l c in
        if d then choose 61 shift_assign shift_only n else emit plain l)

-- The `switch` of `lexer_next_token` on the byte stepped over.
pub operator : ℕ → Lexer → Token × Lexer
operator c l =
    if c == 40
    then emit tk_lparen l
    else if c == 41
    then emit tk_rparen l
    else if c == 123
    then emit tk_lbrace l
    else if c == 125
    then emit tk_rbrace l
    else if c == 91
    then emit tk_lbracket l
    else if c == 93
    then emit tk_rbracket l
    else if c == 59
    then emit tk_semi l
    else if c == 44
    then emit tk_comma l
    else if c == 58
    then emit tk_colon l
    else if c == 46
    then emit tk_dot l
    else if c == 126
    then emit tk_tilde l
    else if c == 43
    then choose 61 tk_plus_assign tk_plus l
    else if c == 42
    then choose 61 tk_star_assign tk_star l
    else if c == 47
    then choose 61 tk_slash_assign tk_slash l
    else if c == 37
    then choose 61 tk_mod_assign tk_mod l
    else if c == 94
    then choose 61 tk_caret_assign tk_caret l
    else if c == 45
    then choose_two 62 tk_arrow 61 tk_minus_assign tk_minus l
    else if c == 33
    then choose 61 tk_neq tk_logic_not l
    else if c == 61
    then choose 61 tk_eq tk_assign l
    else if c == 38
    then choose_two 38 tk_logic_and 61 tk_amp_assign tk_amp l
    else if c == 124
    then choose_two 124 tk_logic_or 61 tk_pipe_assign tk_pipe l
    else if c == 60
    then shift 60 tk_lte tk_shl_assign tk_shl tk_lt l
    else if c == 62
    then shift 62 tk_gte tk_shr_assign tk_shr tk_gt l
    else if c == 34
    then quoted 34 tk_string_const l
    else if c == 39
    then quoted 39 tk_char_const l
    else emit tk_unknown l

pub lexer_init : Bytes → Lexer
lexer_init source = record { start = source; current = source; line = 1; column = 1 }

-- The call after white space: `start` is where the token begins.
pub token_here : Lexer → Token × Lexer
token_here l =
    let c = peek l in
    let m = advance l in
    if is_at_end l
    then emit tk_eof l
    else if isalpha c || c == 95
    then identifier m
    else if isdigit c
    then number m
    else operator c m

pub lexer_next_token : Lexer → Token × Lexer
lexer_next_token l = let m = skip_whitespace l in token_here (record m { start = m.current })
