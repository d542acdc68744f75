-- ===== src/Crc.antt =====
-- include/pmm/types.h: the CRC-32 of an image. The bytes are a list; the position of the field `crc32`
-- in the image is a parameter, since the layout of the struct is the compiler's.
use Prim.Native.Nat.{bit_and, bit_xor}
use netkeep80_persist_memory.Base.{
  ℕ, zero, suc, ◌+◌, ◌-◌, ◌/◌, ◌%◌, ◌^◌, ◌≡◌, refl, ap, ◌∙◌, List, [], ◌∷◌, ◌++◌, arith, length,
}

-- one round of the loop over the bits
unfoldable pub crc32_round : ℕ → ℕ
crc32_round crc = bit_xor (crc / 2) (bit_and 3988292384 ((2 ^ 32 - bit_and crc 1) % 2 ^ 32))

unfoldable pub repeat_round : ℕ → ℕ → ℕ
repeat_round zero crc = crc
repeat_round (suc n) crc = repeat_round n (crc32_round crc)

unfoldable pub crc32_accumulate_byte : (crc byte : ℕ) → ℕ
crc32_accumulate_byte crc byte = repeat_round 8 (bit_xor crc byte)

-- the loop over the bytes
unfoldable pub accumulate : ℕ → List ℕ → ℕ
accumulate crc [] = crc
accumulate crc (b ∷ bs) = accumulate (crc32_accumulate_byte crc b) bs

abbrev pub all_ones : ℕ
all_ones = 2 ^ 32 - 1

unfoldable pub compute_crc32 : List ℕ → ℕ
compute_crc32 data_bytes = bit_xor (accumulate all_ones data_bytes) all_ones

-- the first bytes of an image, and what stands behind them
abbrev pub take : ℕ → List ℕ → List ℕ
take zero bs = []
take (suc n) [] = []
take (suc n) (b ∷ bs) = b ∷ take n bs

abbrev pub drop : ℕ → List ℕ → List ℕ
drop zero bs = bs
drop (suc n) [] = []
drop (suc n) (b ∷ bs) = drop n bs

unfoldable pub compute_image_crc32 : (crc_offset : ℕ) → List ℕ → ℕ
compute_image_crc32 crc_offset image =
    let before : ℕ = accumulate all_ones (take crc_offset image) in
    let field : ℕ = accumulate before (0 ∷ 0 ∷ 0 ∷ 0 ∷ []) in
    bit_xor (accumulate field (drop (crc_offset + 4) image)) all_ones

accumulate-append :
    (crc : ℕ) (xs ys : List ℕ) → accumulate crc (xs ++ ys) ≡ accumulate (accumulate crc xs) ys
unfolding accumulate
accumulate-append crc [] ys = refl
accumulate-append crc (x ∷ xs) ys = accumulate-append (crc32_accumulate_byte crc x) xs ys

take-append : (xs ys : List ℕ) → take (length xs) (xs ++ ys) ≡ xs
take-append [] ys = refl
take-append (x ∷ xs) ys = ap (λ zs. x ∷ zs) (take-append xs ys)

drop-append : (n : ℕ) (xs ys : List ℕ) → drop (length xs + n) (xs ++ ys) ≡ drop n ys
drop-append n [] ys = ap (λ k. drop k ys) none_before
  where
    none_before : 0 + n ≡ n
    none_before = omega arith
drop-append n (x ∷ xs) ys =
    let one_before : suc (length xs) + n ≡ suc (length xs + n) = omega arith in
    ap (λ k. drop k (x ∷ (xs ++ ys))) one_before ∙ drop-append n xs ys

-- The CRC of an image is the CRC of the image with zeros in place of its four bytes of `crc32`. So the
-- field may be written after the CRC was computed, and read back with any value.
pub compute_image_crc32-zeroed :
    (before after : List ℕ) (a b c d : ℕ)
    → compute_image_crc32 (length before) (before ++ a ∷ b ∷ c ∷ d ∷ after)
      ≡ compute_crc32 (before ++ 0 ∷ 0 ∷ 0 ∷ 0 ∷ after)
unfolding compute_image_crc32 compute_crc32 accumulate
compute_image_crc32-zeroed before after a b c d =
    rw
      (
        take-append before (a ∷ b ∷ c ∷ d ∷ after),
        drop-append 4 before (a ∷ b ∷ c ∷ d ∷ after),
        accumulate-append all_ones before (0 ∷ 0 ∷ 0 ∷ 0 ∷ after),
      )
      refl
