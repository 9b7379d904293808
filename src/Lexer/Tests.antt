-- ===== src/Lexer/Tests.antt =====
-- Runs of the scanner, and the theorems at concrete sources.
use scorivm.Base.Lists.{length}
use scorivm.Base.Logic.{Bytes, codes}
use scorivm.Base.{ℕ, zero, suc, ◌<◌, ◌≡◌, refl, ◌⊎◌, List, [], ◌∷◌, ◌++◌, arith}
use scorivm.Lexer.Anchor.{next_token-Anchored}
use scorivm.Lexer.Moves.{position_after, position}
use scorivm.Lexer.Next.{Covers, Ends, nth_token, next_token-Splits, nth_token-reaches_eof}
use scorivm.Lexer.{
  Lexer, lexer_init, lexer_next_token, skip_whitespace, skip_step, skip_loop, token_here,
  advance_while, number, operator, make_token,
}
use scorivm.Token.{TokenKind, tk_shr_assign, tk_int_const, tk_semi, tk_eof}

-- A comment, a line feed, and `  >>= 0xF;`.
abbrev source : Bytes
source = codes "// a" ++ 10 ∷ codes "  >>= 0xF;"

abbrev scanner : Lexer
scanner = record { start = source; current = source; line = 1; column = 1 }

abbrev kinds : ℕ → Lexer → List TokenKind
kinds zero l = []
kinds (suc n) l = (lexer_next_token l).0.kind ∷ kinds n (lexer_next_token l).1

program : Unit {0}
unfolding lexer_next_token skip_whitespace skip_loop skip_step token_here advance_while number
    operator make_token lexer_init
program = tt

init_run : lexer_init source ≡ scanner
unfolding program
init_run = refl

kinds_run : kinds 4 scanner ≡ tk_shr_assign ∷ tk_int_const ∷ tk_semi ∷ tk_eof ∷ []
unfolding program
kinds_run = refl

first_run :
    ((lexer_next_token scanner).0.line ≡ 2)
    × ((lexer_next_token scanner).0.column ≡ 3)
    × ((lexer_next_token scanner).0.length ≡ 3)
unfolding program
first_run = (refl, refl, refl)

next_token-Splits_example :
    (blanks text : Bytes) × (source ≡ blanks ++ (text ++ (lexer_next_token scanner).1.current))
    × Covers (lexer_next_token scanner).1.current (lexer_next_token scanner).0 text
    × (Ends (lexer_next_token scanner).0 (lexer_next_token scanner).1.current text
        ⊎ (0 < length text))
next_token-Splits_example = next_token-Splits scanner

nth_token-reaches_eof_example : (nth_token 15 scanner).0.kind ≡ tk_eof
nth_token-reaches_eof_example = nth_token-reaches_eof 15 scanner (omega arith)

next_token-Anchored_example :
    (blanks text : Bytes) × (source ≡ blanks ++ (text ++ (lexer_next_token scanner).1.current))
    × Covers (lexer_next_token scanner).1.current (lexer_next_token scanner).0 text
    × (((lexer_next_token scanner).0.line, (lexer_next_token scanner).0.column)
        ≡ position_after blanks (1, 1))
    × (position (lexer_next_token scanner).1 ≡ position_after (blanks ++ text) (1, 1))
next_token-Anchored_example = next_token-Anchored scanner (omega arith) (unfold program in refl)
