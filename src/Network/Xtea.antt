-- ===== src/Network/Xtea.antt =====
-- The cipher of protocol.cpp: `Protocol::XTEA_encrypt` and `Protocol::XTEA_decrypt`, on the bytes
-- of a message. Words are read and written as the casts to `uint32_t*` do on a little-endian
-- machine, every sum and difference wraps at 32 bits, and `x & 7` is `x % 8`.
pub mod Rounds
pub mod Blocks
pub mod Packets
use Prim.Native.Nat.{bit_xor}
use otchronos.Prelude.{
  ℕ, zero, suc, ◌+◌, ◌-◌, ◌*◌, ◌/◌, ◌%◌, ◌^◌, ◌≡◌, refl, Bool, true, false, not, ◌==◌, ltb,
  if◌then◌else◌, arith,
}
use otchronos.Network.Bytes.{Buffer, put_bytes, get_bytes, encode, decode}
use otchronos.Network.Message.{Message, add_padding_bytes, get}

abbrev pub word_mod : ℕ
word_mod = 2 ^ 32

abbrev pub delta : ℕ
delta = 0x61c88647

-- `a + b`, `a - b` on `uint32_t`.
abbrev pub add32 : ℕ → ℕ → ℕ
add32 a b = (a + b) % word_mod

abbrev pub sub32 : ℕ → ℕ → ℕ
sub32 a b = (a + word_mod - b % word_mod) % word_mod

-- `m_key`.
pub record Key : Type 0 where
  pub k₀ : ℕ
  pub k₁ : ℕ
  pub k₂ : ℕ
  pub k₃ : ℕ

-- `k[i]` for `i` below 4.
pub key_at : Key → ℕ → ℕ
key_at k i = if i == 0 then k.k₀ else if i == 1 then k.k₁ else if i == 2 then k.k₂ else k.k₃

-- `((v << 4 ^ v >> 5) + v) ^ (sum + key)`.
pub mix : ℕ → ℕ → ℕ → ℕ
mix v sum key = bit_xor (add32 (bit_xor (v * 2 ^ 4 % word_mod) (v / 2 ^ 5)) v) (add32 sum key)

-- The two keys of a round.
pub low_key : Key → ℕ → ℕ
unfolding key_at
low_key k sum = key_at k (sum % 4)

pub high_key : Key → ℕ → ℕ
unfolding key_at
high_key k sum = key_at k (sum / 2 ^ 11 % 4)

-- The loop variables of both ciphers.
pub record Block : Type 0 where
  pub v₀ : ℕ
  pub v₁ : ℕ
  pub sum : ℕ

-- A round of `XTEA_encrypt`.
pub encrypt_round : Key → Block → Block
unfolding mix low_key high_key
encrypt_round k b =
    let v₀ = add32 b.v₀ (mix b.v₁ b.sum (low_key k b.sum)) in
    let sum = sub32 b.sum delta in
    let v₁ = add32 b.v₁ (mix v₀ sum (high_key k sum)) in record { v₀ = v₀; v₁ = v₁; sum = sum }

-- A round of `XTEA_decrypt`.
pub decrypt_round : Key → Block → Block
unfolding mix low_key high_key
decrypt_round k b =
    let v₁ = sub32 b.v₁ (mix b.v₀ b.sum (high_key k b.sum)) in
    let sum = add32 b.sum delta in
    let v₀ = sub32 b.v₀ (mix v₁ sum (low_key k sum)) in record { v₀ = v₀; v₁ = v₁; sum = sum }

-- `n` rounds.
pub rounds : (Block → Block) → ℕ → Block → Block
rounds f zero b = b
rounds f (suc n) b = rounds f n (f b)

pub encrypt_pair : Key → ℕ × ℕ → ℕ × ℕ
unfolding encrypt_round rounds
encrypt_pair k (a, b) =
    let r = rounds (encrypt_round k) 32 (record { v₀ = a; v₁ = b; sum = 0 }) in (r.v₀, r.v₁)

pub decrypt_pair : Key → ℕ × ℕ → ℕ × ℕ
unfolding decrypt_round rounds
decrypt_pair k (a, b) =
    let r = rounds (decrypt_round k) 32 (record { v₀ = a; v₁ = b; sum = 0xc6ef3720 }) in
    (r.v₀, r.v₁)

-- `buffer[readPos], buffer[readPos + 1]` at the byte `i`, and the two writes back.
pub read_pair : ℕ → Buffer → ℕ × ℕ
unfolding decode get_bytes
read_pair i b = (decode (get_bytes 4 i b), decode (get_bytes 4 (i + 4) b))

pub write_pair : ℕ → ℕ × ℕ → Buffer → Buffer
unfolding encode put_bytes
write_pair i (v, w) b = put_bytes (encode 4 w) (i + 4) (put_bytes (encode 4 v) i b)

-- `while (readPos < messageLength)`: `n` blocks of two words, from the byte `i` on.
pub crypt_blocks : (ℕ × ℕ → ℕ × ℕ) → ℕ → ℕ → Buffer → Buffer
unfolding read_pair write_pair
crypt_blocks f i zero b = b
crypt_blocks f i (suc n) b = crypt_blocks f (i + 8) n (write_pair i (f (read_pair i b)) b)

-- `XTEA_encrypt` of a message whose output begins at the byte `start`. The padding is skipped where
-- there is no room; what is then left over a multiple of 8 would be taken with 4 bytes behind it.
unfoldable pub pad : Message → Message
unfolding add_padding_bytes
pad m = let r = m.msg_size % 8 in if r == 0 then m else add_padding_bytes (8 - r) m

-- The words come in pairs: an odd number of words takes one more.
pub pair_count : ℕ → ℕ
pair_count size = (size / 4 + 1) / 2

pub xtea_encrypt : Key → ℕ → Message → Message
unfolding pad crypt_blocks encrypt_pair pair_count
xtea_encrypt k start m =
    let m' = pad m in
    record m' {
      real_buf = crypt_blocks (encrypt_pair k) start (pair_count m'.msg_size) m'.real_buf;
    }

-- `XTEA_decrypt`: the first test is on an `int`, hence the added 2^32. Refused where the body is no multiple of 8, or the length inside it is too long.
pub xtea_decrypt : Key → Message → Message × Bool
unfolding crypt_blocks decrypt_pair pair_count get
xtea_decrypt k m =
    if not ((m.msg_size + word_mod - 6) % 8 == 0)
    then (m, false)
    else let b =
        crypt_blocks (decrypt_pair k) m.read_pos (pair_count (m.msg_size - 6)) m.real_buf in
      let (tmp, m') = get 2 (record m { real_buf = b }) in
      if ltb m'.msg_size (tmp + 8) then (m', false) else (record m' { msg_size = tmp }, true)
