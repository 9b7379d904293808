-- ===== src/Lexer/Consumes.antt =====
-- Strings and characters in src/frontend/lexer.c, and every token without its line and column.
use mathlib.Core.List.{append_assoc}
use mathlib.Core.Option.{some-injective}
use mathlib.Core.Path.{subst}
use scorivm.Base.Lists.{length}
use scorivm.Base.Logic.{Bytes, ◌==◌, Bool-cases, Option-cases}
use scorivm.Base.{
  ℕ, zero, suc, ◌≡◌, refl, sym, ap, ◌∙◌, inl, inr, false, not, ◌&&◌, ◌||◌, some, [], ◌∷◌, ◌++◌,
  arith,
}
use scorivm.Lexer.Moves.{}
use scorivm.Lexer.Scans.{Plain, head-cons, operator-Plain}
use scorivm.Lexer.{
  Lexer, peek, is_at_end, peek_next, advance, new_line, make_token, quoted_step, quoted_loop,
  quoted, operator,
}
use scorivm.Token.{Token, TokenKind, tk_string_const, tk_char_const}

-- The scanner steps over `text`.
pub record Consumes (l m : Lexer) (text : Bytes) : Type 0 where
  pub split : l.current ≡ text ++ m.current
  pub same_start : m.start ≡ l.start

pub Consumes-refl : (l : Lexer) → Consumes l l []
Consumes-refl l = record { split = refl; same_start = refl }

pub Consumes-trans :
    (l m n : Lexer) (a b : Bytes) → Consumes l m a → Consumes m n b → Consumes l n (a ++ b)
Consumes-trans l m n a b v w = record {
  split = v.split ∙ ap (λ (x : Bytes). a ++ x) w.split ∙ sym (append_assoc a b n.current);
  same_start = w.same_start ∙ v.same_start;
}

pub byte-Consumes : (l : Lexer) → is_at_end l ≡ false → Consumes l (advance l) (peek l ∷ [])
byte-Consumes l h = record { split = head-cons l.current h; same_start = refl }

feed-Consumes : (l : Lexer) → is_at_end l ≡ false → Consumes l (new_line l) (peek l ∷ [])
feed-Consumes l h = record { split = head-cons l.current h; same_start = refl }

Eats : Lexer → Lexer → Type 0
Eats l m = (text : Bytes) × Consumes l m text

quoted_step-Eats : (q : ℕ) (l m : Lexer) → quoted_step q l ≡ some m → Eats l m
unfolding quoted_step Eats
quoted_step-Eats q l m e = elim (Bool-cases (is_at_end l || peek l == q)) [
  | inl stop ↦ absurd (ground arith)
  | inr go ↦
      let here : is_at_end l ≡ false = ground arith in
      elim (Bool-cases (peek l == 10)) [
        | inl feed ↦
            subst (Eats l) (some-injective _ _ (rw (go, feed, quoted_step) at e))
              (peek l ∷ [], feed-Consumes l here)
        | inr plain ↦ elim (Bool-cases (peek l == 92 && not (peek_next l == 0))) [
          | inl escape ↦
              let more : is_at_end (advance l) ≡ false = ground arith in
              subst (Eats l) (some-injective _ _ (rw (go, plain, escape, quoted_step) at e)) (
                peek l ∷ peek (advance l) ∷ [],
                Consumes-trans l (advance l) _ (peek l ∷ []) (peek (advance l) ∷ [])
                    (byte-Consumes l here) (byte-Consumes (advance l) more),
              )
          | inr other ↦
              subst (Eats l) (some-injective _ _ (rw (go, plain, other, quoted_step) at e))
                (peek l ∷ [], byte-Consumes l here)
        ]
      ]
]

quoted_loop-Eats : (f q : ℕ) (l : Lexer) → Eats l (quoted_loop f q l)
unfolding quoted_loop Eats
quoted_loop-Eats zero q l = ([], Consumes-refl l)
quoted_loop-Eats (suc f) q l = elim (Option-cases (quoted_step q l)) [
  | inl stop ↦ rw (stop, quoted_loop) ([], Consumes-refl l)
  | inr (m, go) ↦
      let (a, first) = quoted_step-Eats q l m go in
      let (b, rest) = quoted_loop-Eats f q m in
      rw (go, quoted_loop) (a ++ b, Consumes-trans l m _ a b first rest)
]

-- A token of the bytes stepped over.
unfoldable pub Scans : Lexer → Token × Lexer → Type 0
Scans l (t, m) = (text : Bytes) × (k : TokenKind) × Consumes l m text × (t ≡ make_token m k)

Scans-after : (l m : Lexer) (a : Bytes) (r : Token × Lexer) → Consumes l m a → Scans m r → Scans l r
unfolding Scans
Scans-after l m a (t, n) v (text, k, w, e) = (a ++ text, k, Consumes-trans l m n a text v w, e)

pub Plain-Scans : (l : Lexer) (r : Token × Lexer) → Plain l r → Scans l r
unfolding Scans Plain
Plain-Scans l (t, m) (text, k, v, p, e) =
    (text, k, record { split = v.split; same_start = v.same_start }, e)

quoted-Scans : (q : ℕ) (k : TokenKind) (l : Lexer) → Scans l (quoted q k l)
unfolding quoted Scans Eats
quoted-Scans q k l =
    let m = quoted_loop (length l.current) q l in
    let (a, first) = quoted_loop-Eats (length l.current) q l in
    elim (Bool-cases (is_at_end m)) [
      | inl ended ↦ rw (ended, quoted) (a, k, first, refl)
      | inr closed ↦
          rw (closed, quoted)
            (
              a ++ peek m ∷ [],
              k,
              Consumes-trans l m _ a (peek m ∷ []) first (byte-Consumes m closed),
              refl,
            )
    ]

pub operator-Scans : (c : ℕ) (l : Lexer) → Scans l (operator c l)
unfolding operator
operator-Scans c l = elim (Bool-cases (c == 34)) [
  | inl double ↦
      let same : c ≡ 34 = ground arith in rw (same, operator) (quoted-Scans 34 tk_string_const l)
  | inr other ↦ elim (Bool-cases (c == 39)) [
    | inl single ↦
        let same : c ≡ 39 = ground arith in rw (same, operator) (quoted-Scans 39 tk_char_const l)
    | inr rest ↦ Plain-Scans l (operator c l) (operator-Plain c l other rest)
  ]
]
