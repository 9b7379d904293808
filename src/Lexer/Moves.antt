-- ===== src/Lexer/Moves.antt =====
-- What the loops of src/frontend/lexer.c step over, and where that leaves the line and the column.
use mathlib.Core.List.{append_assoc}
use mathlib.Core.Option.{some-injective}
use mathlib.Core.Path.{subst}
use scorivm.Base.Lists.{length, length-append, All}
use scorivm.Base.Logic.{Bytes, ◌==◌, if◌then◌else◌, Bool-cases, Option-cases}
use scorivm.Base.{
  ℕ, zero, suc, ◌≤◌, ◌<◌, ◌≡◌, refl, sym, ap, ◌∙◌, inl, inr, Bool, true, false, not, ◌&&◌, ◌||◌,
  none, some, [], ◌∷◌, ◌++◌, arith,
}
use scorivm.Lexer.{
  Lexer, next, peek, peek_next, advance, advance_while, new_line, skip_step, skip_loop,
}

-- Lines are counted from line feeds; the byte after one is in column 1.
unfoldable pub step_position : ℕ → ℕ × ℕ → ℕ × ℕ
step_position c (line, column) = if c == 10 then (next line, 1) else (line, next column)

-- The position behind a text that begins at the given one.
unfoldable pub position_after : Bytes → ℕ × ℕ → ℕ × ℕ
unfolding step_position
position_after [] p = p
position_after (c ∷ cs) p = position_after cs (step_position c p)

pub position_after-append :
    (a b : Bytes) (p : ℕ × ℕ) → position_after (a ++ b) p ≡ position_after b (position_after a p)
unfolding position_after
position_after-append [] b p = refl
position_after-append (c ∷ a) b p = position_after-append a b (step_position c p)

abbrev pub position : Lexer → ℕ × ℕ
position l = (l.line, l.column)

-- The scanner steps over `text` and keeps count of the position.
pub record Moves (l m : Lexer) (text : Bytes) : Type 0 where
  pub split : l.current ≡ text ++ m.current
  pub same_start : m.start ≡ l.start
  pub moved : position m ≡ position_after text (position l)

pub Moves-refl : (l : Lexer) → Moves l l []
unfolding position_after
Moves-refl l = record { split = refl; same_start = refl; moved = refl }

pub Moves-trans : (l m n : Lexer) (a b : Bytes) → Moves l m a → Moves m n b → Moves l n (a ++ b)
Moves-trans l m n a b v w = record {
  split = v.split ∙ ap (λ (x : Bytes). a ++ x) w.split ∙ sym (append_assoc a b n.current);
  same_start = w.same_start ∙ v.same_start;
  moved = w.moved ∙ ap (position_after b) v.moved ∙ sym (position_after-append a b (position l));
}

pub advance-Moves :
    (l : Lexer) (c : ℕ) (cs : Bytes)
    → l.current ≡ c ∷ cs
    → (c == 10) ≡ false
    → Moves l (advance l) (c ∷ [])
unfolding position_after step_position
advance-Moves l c cs e h = record {
  split = rw e refl;
  same_start = refl;
  moved = rw (h, step_position) refl;
}

pub new_line-Moves :
    (l : Lexer) (c : ℕ) (cs : Bytes)
    → l.current ≡ c ∷ cs
    → (c == 10) ≡ true
    → Moves l (new_line l) (c ∷ [])
unfolding position_after step_position
new_line-Moves l c cs e h = record {
  split = rw e refl;
  same_start = refl;
  moved = rw (h, step_position) refl;
}

abbrev pub NotFeed : ℕ → Type 0
NotFeed c = (c == 10) ≡ false

-- A loop over bytes that are no line feeds.
pub advance_while-Moves :
    (p : ℕ → Bool)
    → ((c : ℕ) → p c ≡ true → NotFeed c)
    → (cs : Bytes) (l : Lexer) → l.current ≡ cs
    → (text : Bytes) × Moves l (advance_while p cs l) text × All NotFeed text
unfolding advance_while position_after step_position
advance_while-Moves p h [] l e = ([], Moves-refl l, tt)
advance_while-Moves p h (c ∷ cs) l e = elim (Bool-cases (p c)) [
  | inl go ↦
      let m : Lexer = record l { current = cs; column = next l.column } in
      let (text, moves, plain) = advance_while-Moves p h cs m refl in
      let one : Moves l m (c ∷ []) = record {
        split = e;
        same_start = refl;
        moved = rw (h c go, step_position) refl;
      } in
      rw (go, advance_while) (c ∷ text, Moves-trans l m _ (c ∷ []) text one moves, (h c go, plain))
  | inr stop ↦ rw (stop, advance_while) ([], Moves-refl l, tt)
]

-- The result of a turn: it steps over at least a byte.
abbrev Turns : Lexer → Lexer → Type 0
Turns l m = (text : Bytes) × Moves l m text × (length m.current < length l.current)

Turns-of : (l m : Lexer) (c : ℕ) (text : Bytes) → Moves l m (c ∷ text) → Turns l m
Turns-of l m c text v = (
  c ∷ text,
  v,
  omega (arith, ap (λ (x : Bytes). length x) v.split, length-append (c ∷ text) m.current),
)

skip_bytes-Moves :
    (cs start : Bytes) (line column : ℕ) (m : Lexer)
    → let l : Lexer = record { start = start; current = cs; line = line; column = column } in
      skip_step l ≡ some m → Turns l m
unfolding skip_step advance_while
skip_bytes-Moves [] start line column m e = absurd (ground arith)
skip_bytes-Moves (c ∷ cs) start line column m e =
    let l : Lexer = record { start = start; current = c ∷ cs; line = line; column = column } in
    elim (Bool-cases (c == 32 || c == 13 || c == 9)) [
      | inl blank ↦
          let same = some-injective _ _ (rw (blank, skip_step) at e) in
          subst (Turns l) same (Turns-of l _ c [] (advance-Moves l c cs refl (ground arith)))
      | inr other ↦ elim (Bool-cases (c == 10)) [
        | inl feed ↦
            let same = some-injective _ _ (rw (other, feed, skip_step) at e) in
            subst (Turns l) same (Turns-of l _ c [] (new_line-Moves l c cs refl feed))
        | inr no_feed ↦ elim (Bool-cases (c == 47 && peek_next l == 47)) [
          | inl comment ↦
              let same = some-injective _ _ (rw (other, no_feed, comment, skip_step) at e) in
              let more : (c == 0) ≡ false = ground arith in
              let (text, v, plain) =
                advance_while-Moves (λ b. not (b == 10) && not (b == 0)) (λ b h. ground arith) cs
                  (advance l) refl in
              subst (Turns l) (rw more at same) (
                Turns-of l _ c text
                  (Moves-trans l (advance l) _ (c ∷ []) text (advance-Moves l c cs refl no_feed) v))
          | inr done ↦ absurd (ground arith)
        ]
      ]
    ]

-- A turn of the loop over white space steps over at least a byte.
pub skip_step-Moves : (l m : Lexer) → skip_step l ≡ some m → Turns l m
skip_step-Moves l m e = skip_bytes-Moves l.current l.start l.line l.column m e

stop_at_end :
    (cs start : Bytes) (line column : ℕ)
    → length cs ≤ 0
    → skip_step (record { start = start; current = cs; line = line; column = column }) ≡ none
unfolding skip_step
stop_at_end [] start line column h = refl
stop_at_end (c ∷ cs) start line column h = absurd (omega arith)

pub skip_loop-Moves : (f : ℕ) (l : Lexer) → (text : Bytes) × Moves l (skip_loop f l) text
unfolding skip_loop
skip_loop-Moves zero l = ([], Moves-refl l)
skip_loop-Moves (suc f) l = elim (Option-cases (skip_step l)) [
  | inl stop ↦ rw (stop, skip_loop) ([], Moves-refl l)
  | inr (m, go) ↦
      let (a, first, shorter) = skip_step-Moves l m go in
      let (b, rest) = skip_loop-Moves f m in
      rw (go, skip_loop) (a ++ b, Moves-trans l m _ a b first rest)
]

-- The loop over white space ends where its body would return.
pub skip_loop-stops : (f : ℕ) (l : Lexer) → length l.current ≤ f → skip_step (skip_loop f l) ≡ none
unfolding skip_loop
skip_loop-stops zero l h = stop_at_end l.current l.start l.line l.column h
skip_loop-stops (suc f) l h = elim (Option-cases (skip_step l)) [
  | inl stop ↦ rw (stop, skip_loop) stop
  | inr (m, go) ↦
      let (a, first, shorter) = skip_step-Moves l m go in
      rw (go, skip_loop) (skip_loop-stops f m (omega arith))
]

-- At the end of the source the loop does nothing.
pub skip_loop-at_end : (f : ℕ) (l : Lexer) → peek l ≡ 0 → skip_loop f l ≡ l
unfolding skip_loop skip_step
skip_loop-at_end zero l h = refl
skip_loop-at_end (suc f) l h =
    let stops : skip_step l ≡ none = ground arith in rw (stops, skip_loop) refl
