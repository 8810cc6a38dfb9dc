-- ===== src/Network/Bytes.antt =====
-- Byte arrays as functions of the index, `memcpy` into and out of them, and the little-endian
-- numbers that the casts `*(T*)(m_MsgBuf + pos)` read and write.
use otchronos.Prelude.{
  ℕ, zero, suc, ◌+◌, ◌*◌, ◌/◌, ◌%◌, ◌^◌, ◌≤◌, ◌<◌, ◌≡◌, refl, List, [], ◌∷◌, ◌==◌, if◌then◌else◌,
  arith, length, ap, ap₂, ◌∙◌, ◌++◌, subst,
}

abbrev pub Buffer : Type 0
Buffer = ℕ → ℕ

unfoldable pub put_byte : ℕ → ℕ → Buffer → Buffer
put_byte i x b q = if i == q then x else b q

-- `memcpy(b + i, xs, length xs)`.
unfoldable pub put_bytes : List ℕ → ℕ → Buffer → Buffer
unfolding put_byte
put_bytes [] i b = b
put_bytes (x ∷ xs) i b = put_bytes xs (i + 1) (put_byte i x b)

-- The `n` bytes from `i` on.
unfoldable pub get_bytes : ℕ → ℕ → Buffer → List ℕ
get_bytes zero i b = []
get_bytes (suc n) i b = b i ∷ get_bytes n (i + 1) b

-- The `w` bytes of a number, lowest first.
unfoldable pub encode : ℕ → ℕ → List ℕ
encode zero v = []
encode (suc w) v = v % 256 ∷ encode w (v / 256)

unfoldable pub decode : List ℕ → ℕ
decode [] = 0
decode (x ∷ xs) = x + 256 * decode xs

abbrev pub AllBytes : List ℕ → Type 0
AllBytes [] = Unit {0}
AllBytes (x ∷ xs) = (x < 256) × AllBytes xs

pub put_bytes-below : (xs : List ℕ) (i : ℕ) (b : Buffer) (q : ℕ) → q < i → put_bytes xs i b q ≡ b q
unfolding put_bytes
put_bytes-below [] i b q h = refl
put_bytes-below (x ∷ xs) i b q h = ground (arith, put_bytes-below xs (i + 1) (put_byte i x b) q)

pub put_bytes-above :
    (xs : List ℕ) (i : ℕ) (b : Buffer) (q : ℕ) → i + length xs ≤ q → put_bytes xs i b q ≡ b q
unfolding put_bytes
put_bytes-above [] i b q h = refl
put_bytes-above (x ∷ xs) i b q h = ground (arith, put_bytes-above xs (i + 1) (put_byte i x b) q)

pub length-encode : (w v : ℕ) → length (encode w v) ≡ w
unfolding encode
length-encode zero v = refl
length-encode (suc w) v = ap suc (length-encode w (v / 256))

pub length-get_bytes : (n i : ℕ) (b : Buffer) → length (get_bytes n i b) ≡ n
unfolding get_bytes
length-get_bytes zero i b = refl
length-get_bytes (suc n) i b = ap suc (length-get_bytes n (i + 1) b)

-- What was copied in is read back.
pub get_bytes-put_bytes :
    (xs : List ℕ) (i : ℕ) (b : Buffer) → get_bytes (length xs) i (put_bytes xs i b) ≡ xs
unfolding get_bytes put_bytes
get_bytes-put_bytes [] i b = refl
get_bytes-put_bytes (x ∷ xs) i b =
    ap₂ ◌∷◌ (ground (arith, put_bytes-below xs (i + 1) (put_byte i x b) i))
      (get_bytes-put_bytes xs (i + 1) (put_byte i x b))

-- Reads see only the bytes in their range.
pub get_bytes-agree :
    (n i : ℕ) (b c : Buffer)
    → ((q : ℕ) → i ≤ q → q < i + n → b q ≡ c q)
    → get_bytes n i b ≡ get_bytes n i c
unfolding get_bytes
get_bytes-agree zero i b c h = refl
get_bytes-agree (suc n) i b c h =
    ap₂ ◌∷◌ (h i (omega arith) (omega arith))
      (get_bytes-agree n (i + 1) b c (λ q k l. h q (omega arith) (omega arith)))

pub decode-encode2 : (v : ℕ) → v < 2 ^ 16 → decode (encode 2 v) ≡ v
unfolding decode encode
decode-encode2 v h = omega arith

pub decode-encode4 : (v : ℕ) → v < 2 ^ 32 → decode (encode 4 v) ≡ v
unfolding decode encode
decode-encode4 v h = omega arith

pub encode-decode4 :
    (a b c d : ℕ)
    → a < 256
    → b < 256
    → c < 256
    → d < 256
    → encode 4 (decode (a ∷ b ∷ c ∷ d ∷ [])) ≡ a ∷ b ∷ c ∷ d ∷ []
unfolding decode encode
encode-decode4 a b c d h k l m = ground arith

-- The bytes `xs` stand in `b` from `i` on.
abbrev pub Holds : Buffer → ℕ → List ℕ → Type 0
Holds b i [] = Unit {0}
Holds b i (x ∷ xs) = (b i ≡ x) × Holds b (i + 1) xs

pub Holds-put_bytes : (xs : List ℕ) (i : ℕ) (b : Buffer) → Holds (put_bytes xs i b) i xs
unfolding put_bytes
Holds-put_bytes [] i b = tt
Holds-put_bytes (x ∷ xs) i b = (
  ground (arith, put_bytes-below xs (i + 1) (put_byte i x b) i),
  Holds-put_bytes xs (i + 1) (put_byte i x b),
)

pub Holds-agree :
    (xs : List ℕ) (i : ℕ) (b c : Buffer)
    → ((q : ℕ) → i ≤ q → q < i + length xs → c q ≡ b q)
    → Holds b i xs
    → Holds c i xs
Holds-agree [] i b c h k = tt
Holds-agree (x ∷ xs) i b c h k = (
  h i (omega arith) (omega arith) ∙ k.0,
  Holds-agree xs (i + 1) b c (λ q l m. h q (omega arith) (omega arith)) k.1,
)

pub Holds-append :
    (xs ys : List ℕ) (i : ℕ) (b : Buffer)
    → Holds b i xs
    → Holds b (i + length xs) ys
    → Holds b i (xs ++ ys)
Holds-append [] ys i b h k = subst (λ j. Holds b j ys) (omega arith) k
Holds-append (x ∷ xs) ys i b h k =
    (h.0, Holds-append xs ys (i + 1) b h.1 (subst (λ j. Holds b j ys) (omega arith) k))

pub Holds-left : (xs ys : List ℕ) (i : ℕ) (b : Buffer) → Holds b i (xs ++ ys) → Holds b i xs
Holds-left [] ys i b h = tt
Holds-left (x ∷ xs) ys i b h = (h.0, Holds-left xs ys (i + 1) b h.1)

pub Holds-right :
    (xs ys : List ℕ) (i : ℕ) (b : Buffer) → Holds b i (xs ++ ys) → Holds b (i + length xs) ys
Holds-right [] ys i b h = subst (λ j. Holds b j ys) (omega arith) h
Holds-right (x ∷ xs) ys i b h =
    subst (λ j. Holds b j ys) (omega arith) (Holds-right xs ys (i + 1) b h.1)

pub get_bytes-Holds :
    (xs : List ℕ) (i : ℕ) (b : Buffer) → Holds b i xs → get_bytes (length xs) i b ≡ xs
unfolding get_bytes
get_bytes-Holds [] i b h = refl
get_bytes-Holds (x ∷ xs) i b h = ap₂ ◌∷◌ h.0 (get_bytes-Holds xs (i + 1) b h.1)

pub decode-encode1 : (v : ℕ) → v < 2 ^ 8 → decode (encode 1 v) ≡ v
unfolding decode encode
decode-encode1 v h = omega arith
