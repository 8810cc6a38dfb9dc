-- ===== src/Network/Xtea/Blocks.antt =====
-- The loop over the blocks of a buffer: decryption undoes encryption byte for byte.
use otchronos.Prelude.{
  ℕ, zero, suc, ◌+◌, ◌≤◌, ◌<◌, ◌≡◌, refl, ap, ap₂, sym, ◌∙◌, List, [], ◌∷◌, arith, length,
}
use native.Mathlib.Decide.{dec_lt}
use otchronos.Network.Bytes.{
  Buffer, put_bytes, put_byte, get_bytes, encode, decode, put_bytes-below, put_bytes-above,
  get_bytes-put_bytes, get_bytes-agree, length-encode, decode-encode4, encode-decode4,
}
use otchronos.Network.Xtea.{
  word_mod, Key, encrypt_pair, decrypt_pair, read_pair, write_pair, crypt_blocks,
}
use otchronos.Network.Xtea.Rounds.{encrypt_pair_bounds, decrypt_pair-encrypt_pair}

write_pair-below : (i : ℕ) (v w : ℕ) (b : Buffer) (q : ℕ) → q < i → write_pair i (v, w) b q ≡ b q
unfolding write_pair
write_pair-below i v w b q h =
    put_bytes-below (encode 4 w) (i + 4) (put_bytes (encode 4 v) i b) q (omega arith)
    ∙ put_bytes-below (encode 4 v) i b q h

write_pair-above :
    (i : ℕ) (v w : ℕ) (b : Buffer) (q : ℕ) → i + 8 ≤ q → write_pair i (v, w) b q ≡ b q
unfolding write_pair
write_pair-above i v w b q h =
    put_bytes-above (encode 4 w) (i + 4) (put_bytes (encode 4 v) i b) q
      (omega (arith, length-encode 4 w))
    ∙ put_bytes-above (encode 4 v) i b q (omega (arith, length-encode 4 v))

read_pair-agree :
    (i : ℕ) (b c : Buffer)
    → ((q : ℕ) → i ≤ q → q < i + 8 → b q ≡ c q)
    → read_pair i b ≡ read_pair i c
unfolding read_pair
read_pair-agree i b c h =
    ap₂ (λ (xs ys : List ℕ). (decode xs, decode ys))
      (get_bytes-agree 4 i b c (λ q k l. h q k (omega arith)))
      (get_bytes-agree 4 (i + 4) b c (λ q k l. h q (omega arith) (omega arith)))

read_pair-write_pair :
    (i v w : ℕ) (b : Buffer)
    → v < word_mod
    → w < word_mod
    → read_pair i (write_pair i (v, w) b) ≡ (v, w)
unfolding read_pair write_pair
read_pair-write_pair i v w b h k =
    let inner = put_bytes (encode 4 v) i b in
    ap₂ (λ (xs ys : List ℕ). (decode xs, decode ys))
      (get_bytes-agree 4 i (put_bytes (encode 4 w) (i + 4) inner) inner
          (λ q l m. put_bytes-below (encode 4 w) (i + 4) inner q m)
        ∙ get_bytes-put_bytes (encode 4 v) i b)
      (get_bytes-put_bytes (encode 4 w) (i + 4) inner)
    ∙ ap₂ (λ (x y : ℕ). (x, y)) (decode-encode4 v h) (decode-encode4 w k)

abbrev pub IsByteArray : Buffer → Type 0
IsByteArray b = (q : ℕ) → b q < 256

read_pair_bounds :
    (i : ℕ) (b : Buffer)
    → IsByteArray b
    → ((read_pair i b).0 < word_mod) × ((read_pair i b).1 < word_mod)
unfolding read_pair decode get_bytes
read_pair_bounds i b h = (
  omega (arith, h i, h (i + 1), h (i + 1 + 1), h (i + 1 + 1 + 1)),
  omega (arith, h (i + 4), h (i + 4 + 1), h (i + 4 + 1 + 1), h (i + 4 + 1 + 1 + 1)),
)

put_bytes-get_bytes :
    (n i : ℕ) (b c : Buffer) (q : ℕ) → i ≤ q → q < i + n → put_bytes (get_bytes n i b) i c q ≡ b q
unfolding put_bytes get_bytes
put_bytes-get_bytes zero i b c q h k = absurd (omega arith)
put_bytes-get_bytes (suc n) i b c q h k = ground (
  arith,
  put_bytes-below (get_bytes n (i + 1) b) (i + 1) (put_byte i (b i) c) q,
  put_bytes-get_bytes n (i + 1) b (put_byte i (b i) c) q,
)

-- The eight bytes that are written do not depend on what stood there.
put_bytes-inside :
    (xs : List ℕ) (i : ℕ) (b c : Buffer) (q : ℕ)
    → i ≤ q
    → q < i + length xs
    → put_bytes xs i b q ≡ put_bytes xs i c q
unfolding put_bytes
put_bytes-inside [] i b c q h k = absurd (omega arith)
put_bytes-inside (x ∷ xs) i b c q h k = ground (
  arith,
  put_bytes-below xs (i + 1) (put_byte i x b) q,
  put_bytes-below xs (i + 1) (put_byte i x c) q,
  put_bytes-inside xs (i + 1) (put_byte i x b) (put_byte i x c) q,
)

write_pair-agree :
    (i : ℕ) (p : ℕ × ℕ) (b c : Buffer) (q : ℕ)
    → i ≤ q
    → q < i + 8
    → write_pair i p b q ≡ write_pair i p c q
unfolding write_pair
write_pair-agree i (v, w) b c q h k = halves (dec_lt q (i + 4))
  where
    halves :
        Dec (q < i + 4)
        → put_bytes (encode 4 w) (i + 4) (put_bytes (encode 4 v) i b) q
          ≡ put_bytes (encode 4 w) (i + 4) (put_bytes (encode 4 v) i c) q
    halves (yes m) =
        put_bytes-below (encode 4 w) (i + 4) (put_bytes (encode 4 v) i b) q m
        ∙ put_bytes-inside (encode 4 v) i b c q h (omega (arith, length-encode 4 v))
        ∙ sym (put_bytes-below (encode 4 w) (i + 4) (put_bytes (encode 4 v) i c) q m)
    halves (no m) =
        put_bytes-inside (encode 4 w) (i + 4) (put_bytes (encode 4 v) i b)
          (put_bytes (encode 4 v) i c) q (omega arith) (omega (arith, length-encode 4 w))

-- What was read is what a write of it leaves there.
write_pair-read_pair :
    (i : ℕ) (b c : Buffer) (q : ℕ)
    → IsByteArray b
    → i ≤ q
    → q < i + 8
    → write_pair i (read_pair i b) c q ≡ b q
unfolding write_pair read_pair get_bytes
write_pair-read_pair i b c q h k l =
    let lower = put_bytes (get_bytes 4 i b) i c in
    let same : (j : ℕ) → encode 4 (decode (get_bytes 4 j b)) ≡ get_bytes 4 j b = λ j.
      encode-decode4 (b j) (b (j + 1)) (b (j + 1 + 1)) (b (j + 1 + 1 + 1)) (h _) (h _) (h _)
        (h _) in
    ap₂ (λ (xs ys : List ℕ). put_bytes xs (i + 4) (put_bytes ys i c) q) (same (i + 4)) (same i)
    ∙ halves (dec_lt q (i + 4))
  where
    halves :
        Dec (q < i + 4)
        → put_bytes (get_bytes 4 (i + 4) b) (i + 4) (put_bytes (get_bytes 4 i b) i c) q ≡ b q
    halves (yes m) =
        put_bytes-below (get_bytes 4 (i + 4) b) (i + 4) (put_bytes (get_bytes 4 i b) i c) q m
        ∙ put_bytes-get_bytes 4 i b c q k m
    halves (no m) =
        put_bytes-get_bytes 4 (i + 4) b (put_bytes (get_bytes 4 i b) i c) q (omega arith)
          (omega arith)

crypt_blocks-below :
    (f : ℕ × ℕ → ℕ × ℕ) (i n : ℕ) (b : Buffer) (q : ℕ) → q < i → crypt_blocks f i n b q ≡ b q
unfolding crypt_blocks
crypt_blocks-below f i zero b q h = refl
crypt_blocks-below f i (suc n) b q h =
    let p = f (read_pair i b) in
    crypt_blocks-below f (i + 8) n (write_pair i p b) q (omega arith)
    ∙ write_pair-below i p.0 p.1 b q h

-- Buffers that agree from `i` on still do after the block at `i` is taken.
step_agree :
    (f : ℕ × ℕ → ℕ × ℕ) (i : ℕ) (b c : Buffer)
    → ((q : ℕ) → i ≤ q → b q ≡ c q)
    → (q : ℕ) → i ≤ q
    → write_pair i (f (read_pair i b)) b q ≡ write_pair i (f (read_pair i c)) c q
step_agree f i b c h q k =
    ap (λ (r : ℕ × ℕ). write_pair i (f r) b q) (read_pair-agree i b c (λ r l m. h r l))
    ∙ halves (f (read_pair i c)) (dec_lt q (i + 8))
  where
    halves : (p : ℕ × ℕ) → Dec (q < i + 8) → write_pair i p b q ≡ write_pair i p c q
    halves p (yes m) = write_pair-agree i p b c q k m
    halves p (no m) =
        write_pair-above i p.0 p.1 b q (omega arith)
        ∙ h q k
        ∙ sym (write_pair-above i p.0 p.1 c q (omega arith))

-- What lies in front does not matter.
crypt_blocks-agree :
    (f : ℕ × ℕ → ℕ × ℕ) (i n : ℕ) (b c : Buffer)
    → ((q : ℕ) → i ≤ q → b q ≡ c q)
    → (q : ℕ) → i ≤ q
    → crypt_blocks f i n b q ≡ crypt_blocks f i n c q
unfolding crypt_blocks
crypt_blocks-agree f i zero b c h q k = h q k
crypt_blocks-agree f i (suc n) b c h q k =
    let b' = write_pair i (f (read_pair i b)) b in
    let c' = write_pair i (f (read_pair i c)) c in
    elim (dec_lt q (i + 8)) [
      | yes m ↦
          crypt_blocks-below f (i + 8) n b' q m
          ∙ step_agree f i b c h q k
          ∙ sym (crypt_blocks-below f (i + 8) n c' q m)
      | no m ↦
          crypt_blocks-agree f (i + 8) n b' c' (λ r l. step_agree f i b c h r (omega arith)) q
            (omega arith)
    ]

write_pair-bytes : (i v w : ℕ) (b : Buffer) → IsByteArray b → IsByteArray (write_pair i (v, w) b)
unfolding write_pair encode put_bytes put_byte
write_pair-bytes i v w b h q = ground (arith, h q)

-- The blocks of a byte array that are encrypted and then decrypted under one key, from the same
-- place on, are again what they were, and so is every byte before and behind them.
pub crypt_blocks_undone :
    (k : Key) (i n : ℕ) (b : Buffer)
    → IsByteArray b
    → (q : ℕ) → crypt_blocks (decrypt_pair k) i n (crypt_blocks (encrypt_pair k) i n b) q ≡ b q
unfolding crypt_blocks
crypt_blocks_undone k i zero b h q = refl
crypt_blocks_undone k i (suc n) b h q =
    let p = encrypt_pair k (read_pair i b) in
    let b' = write_pair i p b in
    let sent = crypt_blocks (encrypt_pair k) (i + 8) n b' in
    let words = read_pair_bounds i b h in
    let coded = encrypt_pair_bounds k (read_pair i b).0 (read_pair i b).1 words.0 words.1 in
    let again : read_pair i sent ≡ p =
      read_pair-agree i sent b' (λ r l m. crypt_blocks-below (encrypt_pair k) (i + 8) n b' r m)
      ∙ read_pair-write_pair i p.0 p.1 b coded.0 coded.1 in
    let back : decrypt_pair k (read_pair i sent) ≡ read_pair i b =
      ap (decrypt_pair k) again
      ∙ decrypt_pair-encrypt_pair k (read_pair i b).0 (read_pair i b).1 words.0 words.1 in
    let first = write_pair i (read_pair i b) sent in
    let others = crypt_blocks_undone k (i + 8) n b' (write_pair-bytes i p.0 p.1 b h) in
    ap (λ (r : ℕ × ℕ). crypt_blocks (decrypt_pair k) (i + 8) n (write_pair i r sent) q) back
    ∙ elim (dec_lt q (i + 8)) [
      | yes m ↦ crypt_blocks-below (decrypt_pair k) (i + 8) n first q m ∙ elim (dec_lt q i) [
        | yes l ↦
            write_pair-below i (read_pair i b).0 (read_pair i b).1 sent q l
            ∙ crypt_blocks-below (encrypt_pair k) (i + 8) n b' q m
            ∙ write_pair-below i p.0 p.1 b q l
        | no l ↦ write_pair-read_pair i b sent q h (omega arith) m
      ]
      | no m ↦
          crypt_blocks-agree (decrypt_pair k) (i + 8) n first sent
            (λ r l. write_pair-above i (read_pair i b).0 (read_pair i b).1 sent r l) q (omega arith)
          ∙ others q
          ∙ write_pair-above i p.0 p.1 b q (omega arith)
    ]
