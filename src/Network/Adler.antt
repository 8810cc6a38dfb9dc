-- ===== src/Network/Adler.antt =====
-- `adlerChecksum` of tools.cpp: the two sums are reduced only after each 5552 bytes.
use Prim.Native.Nat.{bit_or}
use otchronos.Prelude.{
  ℕ, zero, suc, ◌+◌, ◌-◌, ◌*◌, ◌%◌, ◌^◌, ◌≤◌, ◌<◌, ◌≡◌, refl, ◌∙◌, List, [], ◌∷◌, ◌==◌,
  if◌then◌else◌, ltb, length, arith, Bool-cases, inl, inr, subst,
}
use native.Mathlib.Nat.{add-zero}
use otchronos.Network.Bytes.{AllBytes}
use otchronos.Network.Message.{max_size}

abbrev pub adler : ℕ
adler = 65521

abbrev pub chunk : ℕ
chunk = 5552

-- The two loops over the rest of the bytes, with `left` bytes to the end of the chunk.
adler_loop : ℕ → List ℕ → ℕ → ℕ → ℕ × ℕ
adler_loop left [] a b = (a % adler, b % adler)
adler_loop left (x ∷ xs) a b =
    let a' = (a + x) % 2 ^ 32 in
    let b' = (b + a') % 2 ^ 32 in
    let ends = left == 1 in
    adler_loop (if ends then chunk else left - 1) xs (if ends then a' % adler else a')
      (if ends then b' % adler else b')

pub adler_sums : List ℕ → ℕ × ℕ
unfolding adler_loop
adler_sums xs = adler_loop chunk xs 1 0

unfoldable pub adler_checksum : List ℕ → ℕ
unfolding adler_sums
adler_checksum xs =
    if ltb max_size (length xs)
    then 0
    else (let (a, b) = adler_sums xs in bit_or (b * 2 ^ 16 % 2 ^ 32) a)

-- The checksum's definition: both sums modulo 65521 at every byte, with no bound on the numbers.
pub adler_spec : List ℕ → ℕ → ℕ → ℕ × ℕ
adler_spec [] a b = (a % adler, b % adler)
adler_spec (x ∷ xs) a b = adler_spec xs (a + x) (b + (a + x))

-- It depends on the sums by their remainders only.
adler_spec-mod :
    (xs : List ℕ) (a b c d : ℕ)
    → a % adler ≡ c % adler
    → b % adler ≡ d % adler
    → adler_spec xs a b ≡ adler_spec xs c d
unfolding adler_spec
adler_spec-mod [] a b c d h k = rw (h, k)
adler_spec-mod (x ∷ xs) a b c d h k =
    adler_spec-mod xs (a + x) (b + (a + x)) (c + x) (d + (c + x)) (omega arith) (omega arith)

-- How large the second sum can be after `j` bytes of a chunk.
high_bound : ℕ → ℕ
high_bound zero = 65520
high_bound (suc j) = high_bound j + (65520 + 255 * suc j)

high_bound_mono : (j k : ℕ) → high_bound j ≤ high_bound (j + k)
unfolding high_bound
high_bound_mono j zero = rw add-zero (omega arith)
high_bound_mono j (suc k) =
    let e : j + suc k ≡ suc (j + k) = omega arith in rw e (omega (arith, high_bound_mono j k))

high_bound_chunk : high_bound 5552 < 2 ^ 32
unfolding high_bound
high_bound_chunk = omega arith

high_bound_fits : (j : ℕ) → j ≤ 5552 → high_bound j < 2 ^ 32
high_bound_fits j h =
    let e : j + (5552 - j) ≡ 5552 = omega arith in
    omega (
      arith,
      subst (λ n. high_bound j ≤ high_bound n) e (high_bound_mono j (5552 - j)),
      high_bound_chunk,
    )

high_bound-suc : (j : ℕ) → high_bound (suc j) ≡ high_bound j + (65520 + 255 * suc j)
unfolding high_bound
high_bound-suc j = refl

high_bound-zero : high_bound 0 ≡ 65520
unfolding high_bound
high_bound-zero = refl

-- No sum wraps inside a chunk, and the late reductions change nothing.
adler_loop-spec :
    (left : ℕ) (xs : List ℕ) (j a b : ℕ)
    → AllBytes xs
    → left + j ≡ chunk
    → 0 < left
    → a ≤ 65520 + 255 * j
    → b ≤ high_bound j
    → adler_loop left xs a b ≡ adler_spec xs a b
unfolding adler_loop adler_spec
adler_loop-spec left [] j a b k e l h g = refl
adler_loop-spec left (x ∷ xs) j a b k e l h g =
    let s = high_bound-suc j in
    let room = high_bound_fits (suc j) (omega arith) in
    let low : (a + x) % 2 ^ 32 ≡ a + x = omega (arith, k.0, s, room) in
    let high : (b + (a + x)) % 2 ^ 32 ≡ b + (a + x) = omega (arith, k.0, s, room) in
    rw (low, high)
      (elim (Bool-cases (left == 1)) [
        | inl t ↦ rw t (
            adler_loop-spec chunk xs 0 ((a + x) % adler) ((b + (a + x)) % adler) k.1 (omega arith)
              (omega arith) (omega arith) (omega (arith, high_bound-zero))
            ∙ adler_spec-mod xs _ _ (a + x) (b + (a + x)) (omega arith) (omega arith))
        | inr f ↦ rw f (
            adler_loop-spec (left - 1) xs (suc j) (a + x) (b + (a + x)) k.1 (omega arith)
              (ground arith) (omega (arith, k.0)) (omega (arith, k.0, s)))
      ])

-- The two sums of a list of bytes are those of the checksum's definition: 5552 bytes are few enough
-- that no `uint32_t` wraps before it is reduced.
pub adler_sums-spec : (xs : List ℕ) → AllBytes xs → adler_sums xs ≡ adler_spec xs 1 0
unfolding adler_sums
adler_sums-spec xs k =
    adler_loop-spec chunk xs 0 1 0 k (omega arith) (omega arith) (omega arith)
      (omega (arith, high_bound-zero))
