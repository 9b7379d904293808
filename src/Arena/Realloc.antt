-- ===== src/Arena/Realloc.antt =====
-- What `arena_realloc` keeps: the bytes of the block that it resizes, and every other block.
use mathlib.Core.Path.{subst}
use mathlib.Core.Option.{some-injective}
use scorivm.Arena.Safety.{
  IsValidChunk, IsValid, Allocated, Allocated-outside, HandsOut, round8, alloc-HandsOut,
}
use scorivm.Arena.{
  Chunk, Arena, chunks, Apart, Malloc, memcpy, shifted, resize_last, arena_alloc, arena_realloc,
}
use scorivm.Base.Align.{align_up}
use scorivm.Base.Lists.{All}
use scorivm.Base.Logic.{ltb, leb, ◌==◌, if◌then◌else◌, Bool-cases, Option-cases}
use scorivm.Base.{
  ℕ, ◌+◌, ◌-◌, ◌%◌, ◌^◌, ◌≤◌, ◌<◌, ◌≡◌, ◌⊎◌, inl, inr, false, ◌&&◌, some, List, [], ◌∷◌, arith,
}

-- The `n` bytes at `p` are a handed-out part of one chunk.
abbrev pub Belongs : List Chunk → ℕ → ℕ → Type 0
Belongs [] p n = ⊥
Belongs (c ∷ cs) p n = ((c.base ≤ p) × (p + n ≤ c.base + c.offset)) ⊎ Belongs cs p n

Belongs-Allocated :
    (cs : List Chunk) (p n q : ℕ) → Belongs cs p n → p ≤ q → q < p + n → Allocated cs q
Belongs-Allocated [] p n q h lo hi = absurd h
Belongs-Allocated (c ∷ cs) p n q (inl h) lo hi = inl (omega arith)
Belongs-Allocated (c ∷ cs) p n q (inr h) lo hi = inr (Belongs-Allocated cs p n q h lo hi)

Belongs-outside :
    (cs : List Chunk) (b s p n : ℕ)
    → All (Apart b s) cs
    → All IsValidChunk cs
    → Belongs cs p n
    → (p + n ≤ b) ⊎ (b + s ≤ p)
Belongs-outside [] b s p n a v h = absurd h
Belongs-outside (c ∷ cs) b s p n a v (inl h) = let w = v.0.within in omega arith
Belongs-outside (c ∷ cs) b s p n a v (inr h) = Belongs-outside cs b s p n a.1 v.1 h

-- The block of `old` bytes at `p` in `a` has become the block of `new` bytes at `p'` in `b`.
pub record Resizes (a : Arena) (p old new p' : ℕ) (b : Arena) : Type 0 where
  pub valid : IsValid b
  pub aligned : p' % 8 ≡ 0
  pub handed : (q : ℕ) → p' ≤ q → q < p' + new → Allocated (chunks b) q
  pub copied : (i : ℕ) → i < old → i < new → b.memory (p' + i) ≡ a.memory (p + i)
  pub zeroed : (i : ℕ) → align_up 64 old 8 ≤ i → i < new → b.memory (p' + i) ≡ 0
  pub others_kept :
      (q : ℕ)
      → Allocated (chunks a) q
      → (q < p) ⊎ (p + align_up 64 old 8 ≤ q)
      → Allocated (chunks b) q × (b.memory q ≡ a.memory q) × ((q < p') ⊎ (p' + new ≤ q))

-- The last block is the end of the current chunk, and not one that merely abuts on it.
last-in_current :
    (a : Arena) (p n : ℕ)
    → IsValid a
    → 0 < n
    → Belongs (chunks a) p n
    → p + n ≡ a.current.base + a.current.offset
    → a.current.base ≤ p
last-in_current a p n v pos (inl h) e = h.0
last-in_current a p n v pos (inr h) e =
    let w = v.current_ok in
    let out = Belongs-outside a.older a.current.base a.current.size p n v.apart v.older_ok h in
    elim v.started [
      | inl none_older ↦ absurd (subst (λ cs. Belongs cs p n) none_older h)
      | inr used ↦ omega arith
    ]

HandsOut-apart :
    (a : Arena) (n p : ℕ) (b : Arena) (q : ℕ)
    → HandsOut a n p b
    → Allocated (chunks a) q
    → (q < p) ⊎ (p + n ≤ q)
HandsOut-apart a n p b q h x = elim (Bool-cases (leb p q && ltb q (p + n))) [
  | inl inside ↦ absurd (h.fresh q (ground arith) (ground arith) x)
  | inr outside ↦ ground arith
]

module _ (a : Arena) (p old new : ℕ) (v : IsValid a)
    (held : Belongs (chunks a) p (align_up 64 old 8)) (old_pos : 0 < old) (old_small : old < 2 ^ 63)
    (new_pos : 0 < new) (new_small : new < 2 ^ 63) where
  resize_last-Resizes :
      p + align_up 64 old 8 ≡ a.current.base + a.current.offset
      → shifted a.current.offset (align_up 64 old 8) (align_up 64 new 8) ≤ a.current.size
      → Resizes a p old new p (resize_last a p (align_up 64 old 8) (align_up 64 new 8))
  unfolding resize_last
  resize_last-Resizes e room =
      let ao = align_up 64 old 8 in
      let an = align_up 64 new 8 in
      let r = round8 old old_small in
      let t = round8 new new_small in
      let w = v.current_ok in
      let lo = last-in_current a p ao v (omega arith) held e in
      let moved : shifted a.current.offset ao an ≡ a.current.offset - ao + an = omega arith in
      let out : (q : ℕ)
          → Allocated a.older q
          → (q < a.current.base) ⊎ (a.current.base + a.current.size ≤ q) =
        λ q. Allocated-outside a.older a.current.base a.current.size q v.apart v.older_ok in
      record {
        valid = record {
          current_ok = omega arith;
          older_ok = v.older_ok;
          apart = v.apart;
          started = inr (omega arith);
        };
        aligned = omega arith;
        handed = λ q from upto. inl (omega arith);
        copied = λ i below_old below_new. ground arith;
        zeroed = λ i from upto. ground arith;
        others_kept = λ q h side. elim h [
          | inl x ↦ (inl (omega arith), ground arith, omega arith)
          | inr x ↦ (inr x, ground (arith, out q x), omega (arith, out q x))
        ];
      }

  moved-Resizes :
      (p' : ℕ) (b : Arena)
      → HandsOut a new p' b
      → Resizes a p old new p'
          (record b { memory = memcpy b.memory p' p (if ltb old new then old else new) })
  moved-Resizes p' b h =
      let r = round8 old old_small in
      let held_at : (q : ℕ) → p ≤ q → q < p + align_up 64 old 8 → Allocated (chunks a) q =
        λ q. Belongs-Allocated (chunks a) p (align_up 64 old 8) q held in
      record {
        valid = record {
          current_ok = h.valid.current_ok;
          older_ok = h.valid.older_ok;
          apart = h.valid.apart;
          started = h.valid.started;
        };
        aligned = h.aligned;
        handed = h.handed;
        copied = λ i x y.
            ground (arith, h.unchanged (p + i) (held_at (p + i) (omega arith) (omega arith)));
        zeroed = λ i from upto. ground (arith, h.zeroed (p' + i));
        others_kept = λ q x side. (
          h.kept q x,
          ground (arith, h.unchanged q x, HandsOut-apart a new p' b q h x),
          HandsOut-apart a new p' b q h x,
        );
      }

  -- A successful `arena_realloc` of a live block keeps the bytes that both sizes have, zeroes what
  -- it adds beyond the old block's padding, and leaves every other handed-out byte as it was.
  pub realloc-Resizes :
      (m : Malloc) (p' : ℕ) (b : Arena)
      → 0 < p
      → arena_realloc m a p old new ≡ some (p', b)
      → Resizes a p old new p' b
  unfolding arena_realloc
  realloc-Resizes m p' b not_null e =
      let ao = align_up 64 old 8 in
      let an = align_up 64 new 8 in
      let c = a.current in
      let some_new : (new == 0) ≡ false = ground arith in
      let some_p : (p == 0) ≡ false = ground arith in
      let e₁ = rw (some_new, some_p, arena_realloc) at e in
      elim (Bool-cases (p + ao == c.base + c.offset && leb (shifted c.offset ao an) c.size)) [
        | inl last ↦
            subst (λ (r : ℕ × Arena). Resizes a p old new r.0 r.1)
              (some-injective _ _ (rw last at e₁))
              (resize_last-Resizes (ground arith) (ground arith))
        | inr other ↦ elim (Option-cases (arena_alloc m a new)) [
          | inl failed ↦ absurd (ground arith)
          | inr ((q, x), made) ↦
              subst (λ (r : ℕ × Arena). Resizes a p old new r.0 r.1)
                (some-injective _ _ (rw made at (rw other at e₁)))
                (moved-Resizes q x (alloc-HandsOut m a new q x v new_small made))
        ]
      ]
