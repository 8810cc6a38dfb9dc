-- ===== src/Condition/Stream.antt =====
-- `PropWriteStream` and `PropStream` of fileloader.h: values in bytes, the lowest first.
use otchronos.Prelude.{
  ℕ, zero, suc, ◌+◌, ◌*◌, ◌%◌, ◌/◌, ◌<◌, ◌≡◌, refl, Option, none, some, List, [], ◌∷◌, length,
  arith,
}

-- `ADD_VALUE` of so many bytes, before the rest of the stream.
unfoldable pub add_value : ℕ → ℕ → List ℕ → List ℕ
add_value zero v rest = rest
add_value (suc n) v rest = v % 256 ∷ add_value n (v / 256) rest

-- `GET_VALUE` of so many bytes: the value and the rest of the stream.
unfoldable pub get_value : ℕ → List ℕ → Option (ℕ × List ℕ)
get_value zero s = some (0, s)
get_value (suc n) [] = none
get_value (suc n) (b ∷ s) = elim (get_value n s) [
  | none ↦ none
  | some (v, rest) ↦ some (b + 256 * v, rest)
]

-- How many values so many bytes have.
abbrev pub capacity : ℕ → ℕ
capacity zero = 1
capacity (suc n) = 256 * capacity n

pub get_value-add_value :
    (n v : ℕ) (rest : List ℕ) → v < capacity n → get_value n (add_value n v rest) ≡ some (v, rest)
unfolding get_value add_value
get_value-add_value zero v rest h = let e : 0 ≡ v = omega (arith, h) in rw e refl
get_value-add_value (suc n) v rest h =
    let ih = get_value-add_value n (v / 256) rest (omega (arith, h)) in
    let e : v % 256 + 256 * (v / 256) ≡ v = omega arith in rw (ih, e) refl

pub length-add_value : (n v : ℕ) (rest : List ℕ) → length (add_value n v rest) ≡ n + length rest
unfolding add_value
length-add_value zero v rest = omega arith
length-add_value (suc n) v rest = omega (arith, length-add_value n (v / 256) rest)
