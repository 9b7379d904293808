-- ===== src/RegAlloc/Slots.antt =====
-- Stack slots of src/backend/reg_alloc.c.
use scorivm.Base.Logic.{ltb, ◌==◌, Bool-cases}
use scorivm.Base.{ℕ, ◌+◌, ◌≤◌, ◌<◌, ◌≡◌, ◌≢◌, refl, ap, ◌⊎◌, inl, inr, false, arith}
use scorivm.RegAlloc.{RegAllocator, reg_alloc_get_offset}

-- Every slot begins within what is in use below the frame pointer.
unfoldable pub IsWithin : RegAllocator → Type 0
IsWithin a = (v : ℕ) → a.vreg_offsets v ≤ a.current_offset

-- A slot runs from its offset up by `size` bytes, toward the frame pointer.
pub record HasSlot (a : RegAllocator) (v size offset : ℕ) (b : RegAllocator) : Type 0 where
  pub within : IsWithin b
  pub slot : b.vreg_offsets v ≡ offset
  pub others : (w : ℕ) → w ≢ v → b.vreg_offsets w ≡ a.vreg_offsets w
  pub room :
      ((a.vreg_offsets v ≡ 0) × (8 ≤ offset) × ((w : ℕ) → a.vreg_offsets w + size ≤ offset))
      ⊎ ((b ≡ a) × (0 < offset))
  pub again : (later : ℕ) → reg_alloc_get_offset b v later ≡ (offset, b)

found :
    (b : RegAllocator) (v later offset : ℕ)
    → v ≤ b.max_vreg
    → b.vreg_offsets v ≡ offset
    → 0 < offset
    → reg_alloc_get_offset b v later ≡ (offset, b)
unfolding reg_alloc_get_offset
found b v later offset l e pos =
    let known : ltb b.max_vreg v ≡ false = ground arith in
    let old : (b.vreg_offsets v == 0) ≡ false = ground arith in
    let pair : ℕ → ℕ × RegAllocator = λ x. (x, b) in
    rw (known, old, reg_alloc_get_offset) (ap pair e)

-- The slot of a register that the allocator knows: a new one lies, with at least 8 bytes and the size
-- asked for, beyond all earlier ones, which stay; and any later request finds the same slot.
pub get_offset-HasSlot :
    (a : RegAllocator) (v size : ℕ)
    → IsWithin a
    → v ≤ a.max_vreg
    → let (offset, b) = reg_alloc_get_offset a v size in HasSlot a v size offset b
unfolding reg_alloc_get_offset IsWithin
get_offset-HasSlot a v size h l =
    let known : ltb a.max_vreg v ≡ false = ground arith in
    elim (Bool-cases (a.vreg_offsets v == 0)) [
      | inl fresh ↦
          rw (known, fresh, reg_alloc_get_offset)
            (record {
              within = λ w. ground (arith, h w);
              slot = ground arith;
              others = λ w ne. ground arith;
              room = inl (ground arith, ground arith, λ w. ground (arith, h w));
              again = λ later. found _ v later _ l (ground arith) (ground arith);
            })
      | inr old ↦
          rw (known, old, reg_alloc_get_offset)
            (record {
              within = h;
              slot = refl;
              others = λ w ne. refl;
              room = inr (refl, ground arith);
              again = λ later. rw (known, old, reg_alloc_get_offset) refl;
            })
    ]
