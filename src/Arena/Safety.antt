-- ===== src/Arena/Safety.antt =====
-- What a block from `arena_alloc` is: fresh, aligned and zeroed, with all earlier blocks kept.
use mathlib.Core.Option.{some-injective}
use mathlib.Core.Path.{subst}
use scorivm.Arena.{
  Chunk, Arena, chunks, Apart, Malloc, arena_chunk_create, arena_init, bump, arena_alloc,
}
use scorivm.Base.Align.{align_up, align_up_pow}
use scorivm.Base.Lists.{All}
use scorivm.Base.Logic.{ltb, if◌then◌else◌, Bool-cases, Option-cases}
use scorivm.Base.{
  ℕ, ◌+◌, ◌-◌, ◌%◌, ◌^◌, ◌≤◌, ◌<◌, ◌≡◌, ◌⊎◌, ◌↔◌, inl, inr, refl, none, some, List, [], ◌∷◌, arith,
}

pub record IsValidChunk (c : Chunk) : Type 0 where
  pub base_aligned : c.base % 8 ≡ 0
  pub not_null : 0 < c.base
  pub bounded : c.base + c.size < 2 ^ 63
  pub within : c.offset ≤ c.size
  pub offset_aligned : c.offset % 8 ≡ 0

-- Every chunk is well formed, the current one shares no address with an older one, and it was
-- added only to be used.
pub record IsValid (a : Arena) : Type 0 where
  pub current_ok : IsValidChunk a.current
  pub older_ok : All IsValidChunk a.older
  pub apart : All (Apart a.current.base a.current.size) a.older
  pub started : (a.older ≡ []) ⊎ (0 < a.current.offset)

-- The address stands in the part of some chunk that has been handed out.
abbrev pub Allocated : List Chunk → ℕ → Type 0
Allocated [] q = ⊥
Allocated (c ∷ cs) q = ((c.base ≤ q) × (q < c.base + c.offset)) ⊎ Allocated cs q

-- `b` is `a` after it has handed out `n` bytes at `p`.
pub record HandsOut (a : Arena) (n : ℕ) (p : ℕ) (b : Arena) : Type 0 where
  pub valid : IsValid b
  pub aligned : p % 8 ≡ 0
  pub not_null : 0 < p
  pub fresh : (q : ℕ) → p ≤ q → q < p + n → ¬ Allocated (chunks a) q
  pub handed : (q : ℕ) → p ≤ q → q < p + n → Allocated (chunks b) q
  pub zeroed : (q : ℕ) → p ≤ q → q < p + n → b.memory q ≡ 0
  pub kept : (q : ℕ) → Allocated (chunks a) q → Allocated (chunks b) q
  pub unchanged : (q : ℕ) → Allocated (chunks a) q → b.memory q ≡ a.memory q

pub round8 :
    (n : ℕ)
    → n < 2 ^ 63
    → (n ≤ align_up 64 n 8) × (align_up 64 n 8 ≤ n + 7) × (align_up 64 n 8 % 8 ≡ 0)
round8 n h =
    let e : align_up 64 n 8 ≡ (n + 8 - 1) - (n + 8 - 1) % 8 =
      align_up_pow 64 3 n (omega arith) (omega arith) in
    omega arith

pub Allocated-outside :
    (cs : List Chunk) (p n q : ℕ)
    → All (Apart p n) cs
    → All IsValidChunk cs
    → Allocated cs q
    → (q < p) ⊎ (p + n ≤ q)
Allocated-outside [] p n q h v e = absurd e
Allocated-outside (c ∷ cs) p n q h v (inl e) = let w = v.0.within in omega arith
Allocated-outside (c ∷ cs) p n q h v (inr e) = Allocated-outside cs p n q h.1 v.1 e

-- A bump within the room of the current chunk.
bump-HandsOut :
    (a : Arena) (n : ℕ)
    → IsValidChunk a.current
    → All IsValidChunk a.older
    → All (Apart a.current.base a.current.size) a.older
    → (a.older ≡ []) ⊎ (0 < a.current.offset + n)
    → n % 8 ≡ 0
    → a.current.offset + n ≤ a.current.size
    → HandsOut a n (bump a n).0 (bump a n).1
unfolding bump
bump-HandsOut a n c old apart some_use m room =
    let out : (q : ℕ)
        → Allocated a.older q
        → (q < a.current.base) ⊎ (a.current.base + a.current.size ≤ q) =
      λ q. Allocated-outside a.older a.current.base a.current.size q apart old in
    record {
      valid = record {
        current_ok = omega arith;
        older_ok = old;
        apart = apart;
        started = elim some_use [ inl e ↦ inl e | inr h ↦ inr (omega arith) ];
      };
      aligned = omega arith;
      not_null = omega arith;
      fresh = λ q lo hi e. elim e [ inl x ↦ omega arith | inr y ↦ omega (arith, out q y) ];
      handed = λ q lo hi. inl (omega arith);
      zeroed = λ q lo hi. ground arith;
      kept = λ q e. elim e [ inl x ↦ inl (omega arith) | inr y ↦ inr y ];
      unchanged = λ q e. elim e [ inl x ↦ ground arith | inr y ↦ ground (arith, out q y) ];
    }

-- A chunk that `malloc` has just given.
create-fresh :
    (m : Malloc) (live : List Chunk) (n : ℕ) (c : Chunk)
    → arena_chunk_create m live n ≡ some c
    → (c.size ≡ n) × (c.offset ≡ 0) × IsValidChunk c × All (Apart c.base c.size) live
unfolding arena_chunk_create
create-fresh m live n c e = elim (Option-cases (m.block live n)) [
  | inl failed ↦ ground arith
  | inr (p, given) ↦
      let f = m.block_fresh live n p given in
      let s : (c.size ≡ n) × (c.offset ≡ 0) × (c.base ≡ p) = ground arith in
      (
        s.0,
        s.1,
        record {
          base_aligned = omega arith;
          not_null = omega arith;
          bounded = omega arith;
          within = omega arith;
          offset_aligned = omega arith;
        },
        rw (s.2, s.0) f.3,
      )
]

-- Handing out from a chunk that has just been added is handing out from the arena.
grow-HandsOut :
    (a : Arena) (c : Chunk) (n p : ℕ) (b : Arena)
    → HandsOut (record a { current = c; older = chunks a }) n p b
    → HandsOut a n p b
grow-HandsOut a c n p b h = record {
  valid = h.valid;
  aligned = h.aligned;
  not_null = h.not_null;
  fresh = λ q lo hi e. h.fresh q lo hi (inr e);
  handed = h.handed;
  zeroed = h.zeroed;
  kept = λ q e. h.kept q (inr e);
  unchanged = λ q e. h.unchanged q (inr e);
}

-- A larger block that is handed out holds a smaller one.
shrink-HandsOut : (a : Arena) (n k p : ℕ) (b : Arena) → n ≤ k → HandsOut a k p b → HandsOut a n p b
shrink-HandsOut a n k p b le h = record {
  valid = h.valid;
  aligned = h.aligned;
  not_null = h.not_null;
  fresh = λ q lo hi. h.fresh q lo (omega arith);
  handed = λ q lo hi. h.handed q lo (omega arith);
  zeroed = λ q lo hi. h.zeroed q lo (omega arith);
  kept = h.kept;
  unchanged = h.unchanged;
}

abbrev grown : Arena → Chunk → Arena
grown a c = record a { current = c; older = chunks a }

bump-result :
    (a x : Arena) (n p : ℕ) (b : Arena)
    → some (bump x n) ≡ some (p, b)
    → HandsOut a n (bump x n).0 (bump x n).1
    → HandsOut a n p b
bump-result a x n p b e = subst (λ (r : ℕ × Arena). HandsOut a n r.0 r.1) (some-injective _ _ e)

-- The two ways in which `arena_alloc` succeeds.
alloc-cases :
    (m : Malloc) (a : Arena) (size p : ℕ) (b : Arena)
    → arena_alloc m a size ≡ some (p, b)
    → let n = align_up 64 size 8 in
      ((some (bump a n) ≡ some (p, b)) × ((a.current.offset + n) % 2 ^ 64 ≤ a.current.size))
      ⊎ ((c : Chunk) × (k : ℕ) × (n ≤ k)
          × (a.current.size < (a.current.offset + n) % 2 ^ 64)
          × (arena_chunk_create m (chunks a) k ≡ some c)
          × (some (bump (grown a c) n) ≡ some (p, b)))
unfolding arena_alloc
alloc-cases m a size p b e =
    let n = align_up 64 size 8 in
    let k = if ltb a.default_chunk_size n then n else a.default_chunk_size in
    elim (Bool-cases (ltb a.current.size ((a.current.offset + n) % 2 ^ 64))) [
      | inr room ↦ inl (rw room at e, ground arith)
      | inl full ↦ elim (Option-cases (arena_chunk_create m (chunks a) k)) [
        | inl failed ↦ absurd (ground arith)
        | inr (c, made) ↦ inr (c, k, ground arith, ground arith, made, rw made at (rw full at e))
      ]
    ]

-- A block that `arena_alloc` returns is aligned to 8 and zeroed, none of its bytes was handed out
-- before, all earlier blocks stay handed out and keep their bytes, and the arena stays valid.
pub alloc-HandsOut :
    (m : Malloc) (a : Arena) (size p : ℕ) (b : Arena)
    → IsValid a
    → size < 2 ^ 63
    → arena_alloc m a size ≡ some (p, b)
    → HandsOut a size p b
alloc-HandsOut m a size p b v h e =
    let n = align_up 64 size 8 in
    let r = round8 size h in
    shrink-HandsOut a size n p b r.0 (elim (alloc-cases m a size p b e) [
      | inl (made, room) ↦ bump-result a a n p b made (
          bump-HandsOut a n v.current_ok v.older_ok v.apart
            (elim v.started [ inl e ↦ inl e | inr h ↦ inr (omega arith) ]) r.2
            (let w = v.current_ok in omega arith))
      | inr (c, k, le, full, new, made) ↦
          let (s, z, w, apart) = create-fresh m (chunks a) k c new in
          bump-result a (grown a c) n p b made (
            grow-HandsOut a c n _ _ (
              bump-HandsOut (grown a c) n w (v.current_ok, v.older_ok) apart
                (inr (let x = v.current_ok in omega arith)) r.2 (omega arith)))
    ])

-- A new arena is valid, and nothing is handed out yet.
pub init-IsValid :
    (m : Malloc) (mem : ℕ → ℕ) (size : ℕ) (a : Arena)
    → arena_init m mem size ≡ some a
    → IsValid a × ((q : ℕ) → ¬ Allocated (chunks a) q)
unfolding arena_init
init-IsValid m mem size a e = elim (Option-cases (arena_chunk_create m [] size)) [
  | inl failed ↦ absurd (ground arith)
  | inr (c, made) ↦
      let (s, z, w, apart) = create-fresh m [] size c made in
      let same : record { current = c; older = []; default_chunk_size = size; memory = mem } ≡ a =
        some-injective _ _ (rw (made, arena_init) at e) in
      subst (λ (b : Arena). IsValid b × ((q : ℕ) → ¬ Allocated (chunks b) q)) same
        (
          record { current_ok = w; older_ok = tt; apart = tt; started = inl refl },
          λ q h. elim h [ inl x ↦ omega arith | inr y ↦ y ],
        )
]

-- `arena_alloc` exits exactly when the rounded size does not fit in the current chunk and `malloc`
-- fails to give a chunk of the larger of that size and the default.
pub alloc-exit :
    (m : Malloc) (a : Arena) (size : ℕ)
    → let n = align_up 64 size 8 in
      let k = if ltb a.default_chunk_size n then n else a.default_chunk_size in
      (arena_alloc m a size ≡ none) ↔ (
        (a.current.size < (a.current.offset + n) % 2 ^ 64)
        × (arena_chunk_create m (chunks a) k ≡ none))
unfolding arena_alloc
alloc-exit m a size = (λ e. (ground arith, ground arith), λ (full, failed). ground arith)
