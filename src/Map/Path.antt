-- ===== src/Map/Path.antt =====
-- When two coordinates lie in one leaf.
use otchronos.Prelude.{
  ℕ, zero, suc, ◌*◌, ◌/◌, ◌%◌, ◌^◌, ◌<◌, ◌≡◌, refl, Bool, true, false, ◌&&◌, arith,
}
use otchronos.Map.{bit}

unfoldable pub same_bool : Bool → Bool → Bool
same_bool true b = b
same_bool false true = false
same_bool false false = true

same_bool_refl : (b : Bool) → same_bool b b ≡ true
unfolding same_bool
same_bool_refl true = refl
same_bool_refl false = refl

-- The first bits of two coordinates agree.
unfoldable pub same_bits : ℕ → ℕ → ℕ → Bool
unfolding same_bool
same_bits zero x u = true
same_bits (suc n) x u = same_bool (bit x) (bit u) && same_bits n (x * 2) (u * 2)

pub same_bits_refl : (n x : ℕ) → same_bits n x x ≡ true
unfolding same_bits
same_bits_refl zero x = refl
same_bits_refl (suc n) x = ground (arith, same_bool_refl (bit x), same_bits_refl n (x * 2))

bit-eq : (x u : ℕ) → same_bool (bit x) (bit u) ≡ true → (x / 2 ^ 15) % 2 ≡ (u / 2 ^ 15) % 2
unfolding same_bool
bit-eq x u h = ground (arith, h)

shift : ℕ → ℕ → ℕ
shift zero x = x
shift (suc n) x = shift n (x * 2)

same_bits-eq :
    (n x u : ℕ)
    → same_bits n x u ≡ true
    → shift n x % 2 ^ 16 ≡ shift n u % 2 ^ 16
    → x % 2 ^ 16 ≡ u % 2 ^ 16
unfolding same_bits shift
same_bits-eq zero x u h k = k
same_bits-eq (suc n) x u h k =
    let double = same_bits-eq n (x * 2) (u * 2) (ground (arith, h)) k in
    omega (arith, double, bit-eq x u (ground (arith, h)))

-- Coordinates of 16 bits in one leaf, at the same offset, are one.
pub same_leaf-eq :
    (x u : ℕ) → x < 2 ^ 16 → u < 2 ^ 16 → same_bits 13 x u ≡ true → x % 8 ≡ u % 8 → x ≡ u
unfolding shift
same_leaf-eq x u h k s o = let e = same_bits-eq 13 x u s (omega (arith, o)) in omega (arith, e)
