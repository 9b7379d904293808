-- ===== src/Encode/Image/Linked.antt =====
-- The sections of the file of src/backend/pe_linker.c, and what a processor finds at a place that is linked.
use scorivm.Base.Lists.{length}
use scorivm.Base.Logic.{Bytes, ltb}
use scorivm.Base.{
  ℕ, zero, suc, ◌+◌, ◌-◌, ◌%◌, ◌^◌, ◌≤◌, ◌<◌, ◌≡◌, refl, ap, ◌∙◌, true, some, [], ◌∷◌, ◌++◌, arith,
}
use scorivm.Encode.Decode.{read32, read32-emit32}
use scorivm.Encode.Image.{Sections, place_sections, link_place}
use scorivm.Encode.Imports.{write_at}
use scorivm.Encode.Write.{rel32}
use scorivm.Encode.{emit32}

unfoldable pub drop_bytes : ℕ → Bytes → Bytes
drop_bytes zero bs = bs
drop_bytes (suc n) [] = []
drop_bytes (suc n) (c ∷ bs) = drop_bytes n bs

write_four :
    (buffer : Bytes) (a b c d : ℕ)
    → 4 ≤ length buffer
    → write_at buffer 0 (a ∷ b ∷ c ∷ d ∷ []) ≡ a ∷ b ∷ c ∷ d ∷ drop_bytes 4 buffer
unfolding write_at drop_bytes
write_four (p ∷ q ∷ r ∷ s ∷ []) a b c d h = refl
write_four (p ∷ q ∷ r ∷ s ∷ t ∷ rest) a b c d h = refl
write_four (p ∷ q ∷ r ∷ []) a b c d h = absurd (omega arith)
write_four (p ∷ q ∷ []) a b c d h = absurd (omega arith)
write_four (p ∷ []) a b c d h = absurd (omega arith)
write_four [] a b c d h = absurd (omega arith)

write_distance :
    (buffer : Bytes) (n : ℕ)
    → 4 ≤ length buffer
    → write_at buffer 0 (emit32 n) ≡ emit32 n ++ drop_bytes 4 buffer
unfolding emit32
write_distance buffer n h = write_four buffer _ _ _ _ h

drop-write_at :
    (buffer : Bytes) (at : ℕ) (bs : Bytes)
    → drop_bytes at (write_at buffer at bs) ≡ write_at (drop_bytes at buffer) 0 bs
unfolding write_at drop_bytes
drop-write_at buffer zero bs = refl
drop-write_at [] (suc at) bs = refl
drop-write_at (c ∷ buffer) (suc at) bs = drop-write_at buffer at bs

length-drop : (at : ℕ) (bs : Bytes) → length (drop_bytes at bs) ≡ length bs - at
unfolding drop_bytes
length-drop zero bs = omega arith
length-drop (suc at) [] = omega arith
length-drop (suc at) (c ∷ bs) = omega (arith, length-drop at bs)

-- The distance at a linked place inside the text leads from behind it to the address it was linked to.
pub link_place-Leads :
    (text_address : ℕ) (text : Bytes) (text_off target_rva : ℕ)
    → text_off + 4 ≤ length text
    → target_rva < 2 ^ 32
    → (d : ℕ) × (read32 (drop_bytes text_off (link_place text_address text text_off target_rva))
        ≡ some (d, drop_bytes 4 (drop_bytes text_off text)))
      × ((text_address + text_off + 4 + d) % 2 ^ 32 ≡ target_rva)
unfolding link_place rel32
link_place-Leads text_address text text_off target_rva h k =
    let distance : ℕ = rel32 target_rva (text_address + text_off) in
    let rest : Bytes = drop_bytes text_off text in
    let enough : 4 ≤ length rest = omega (arith, length-drop text_off text, h) in
    (
      distance,
      ap read32
            (drop-write_at text text_off (emit32 distance) ∙ write_distance rest distance enough)
          ∙ read32-emit32 distance (drop_bytes 4 rest) (omega arith),
      omega arith,
    )

-- `at` is the first multiple of `unit` that is not below `end`.
abbrev pub IsNext : ℕ → ℕ → ℕ → Type 0
IsNext unit end at = (end ≤ at) × (at < end + unit) × (at % unit ≡ 0)

-- Sections of three sizes: the text begins on the second page in memory, and each other section and the
-- end of the image at the first page behind the section before. In the file the text begins behind the
-- headers, the others at the first multiple of 512 behind the section before.
pub AreOrdered : ℕ → ℕ → ℕ → Sections → Type 0
AreOrdered text_size rdata_size data_size s =
    (s.text_address ≡ 0x1000)
    × IsNext (2 ^ 12) (s.text_address + text_size) s.rdata_address
    × IsNext (2 ^ 12) (s.rdata_address + rdata_size) s.data_address
    × IsNext (2 ^ 12) (s.data_address + data_size) s.size_of_image
    × (s.text_raw ≡ s.size_of_headers)
    × (s.text_raw % 2 ^ 9 ≡ 0)
    × IsNext (2 ^ 9) (s.text_raw + text_size) s.rdata_raw
    × IsNext (2 ^ 9) (s.rdata_raw + rdata_size) s.data_raw

-- With variables and below 2^31 bytes in all, the text begins at the second page in memory and right behind
-- the headers in the file, at a multiple of 512; each later section begins at the first multiple of 4096
-- in memory, and of 512 in the file, that is not below the end of the section before; and the image ends
-- at the first multiple of 4096 that is not below the end of the last section.
pub sections-AreOrdered :
    (text_size rdata_size data_size : ℕ)
    → text_size + rdata_size + data_size < 2 ^ 31
    → 0 < data_size
    → AreOrdered text_size rdata_size data_size (place_sections text_size rdata_size data_size)
unfolding place_sections AreOrdered
sections-AreOrdered text_size rdata_size data_size h k =
    let three : ltb 0 data_size ≡ true = ground arith in
    rw three (
      refl,
      (omega arith, omega arith, omega arith),
      (omega arith, omega arith, omega arith),
      (omega arith, omega arith, omega arith),
      refl,
      omega arith,
      (omega arith, omega arith, omega arith),
      (omega arith, omega arith, omega arith),
    )
