-- ===== src/Network/Xtea/Packets.antt =====
-- `XTEA_decrypt` after `XTEA_encrypt`, on whole messages.
use otchronos.Prelude.{
  ℕ, zero, suc, ◌+◌, ◌-◌, ◌%◌, ◌≤◌, ◌<◌, ◌≡◌, List, [], ◌∷◌, true, false, arith, fun_ext,
}
use otchronos.Network.Bytes.{Buffer, AllBytes, put_bytes, put_byte, get_bytes, decode}
use otchronos.Network.Message.{
  Message, max_body_length, can_add, can_read, add_padding_bytes, padding, get,
}
use otchronos.Network.Xtea.{Key, pad, pair_count, xtea_encrypt, xtea_decrypt}
use otchronos.Network.Xtea.Blocks.{IsByteArray, crypt_blocks_undone}

-- With room for it, padding takes a message up to the next multiple of 8, by fewer than 8 bytes,
-- and moves nothing else.
pub pad_lem :
    (m : Message)
    → m.read_pos + 8 < max_body_length
    → ((pad m).msg_size % 8 ≡ 0)
      × (m.msg_size ≤ (pad m).msg_size)
      × ((pad m).msg_size < m.msg_size + 8)
      × ((pad m).read_pos ≡ m.read_pos)
unfolding pad add_padding_bytes can_add
pad_lem m h = ground arith

put_bytes-bytes :
    (xs : List ℕ) (i : ℕ) (b : Buffer)
    → AllBytes xs
    → IsByteArray b
    → IsByteArray (put_bytes xs i b)
unfolding put_bytes
put_bytes-bytes [] i b k h = h
put_bytes-bytes (x ∷ xs) i b k h =
    put_bytes-bytes xs (i + 1) (put_byte i x b) k.1
      (λ q. unfold put_byte in ground (arith, k.0, h q))

padding-bytes : (n : ℕ) → AllBytes (padding n)
unfolding padding
padding-bytes zero = tt
padding-bytes (suc n) = (omega arith, padding-bytes n)

pad-bytes : (m : Message) → IsByteArray m.real_buf → IsByteArray (pad m).real_buf
unfolding pad add_padding_bytes can_add
pad-bytes m h q = ground (
  arith,
  h q,
  put_bytes-bytes (padding (8 - m.msg_size % 8)) m.read_pos m.real_buf
      (padding-bytes (8 - m.msg_size % 8)) h q,
)

-- What a receiver has when the bytes of a sent message have arrived behind the 6 bytes of the
-- length and the checksum, with `read_pos` at the first encrypted byte.
pub arrived : ℕ → Message → Message
arrived start sent = record {
  real_buf = sent.real_buf;
  msg_size = sent.msg_size + 6;
  read_pos = start;
  overrun = false;
}

-- The length that stands inside the message, in front of its body.
unfoldable pub inner_length : ℕ → Message → ℕ
unfolding pad decode get_bytes
inner_length start m = decode (get_bytes 2 start (pad m).real_buf)

-- A message of bytes that had room for its padding, encrypted from `start` on, which is at most 8,
-- and decrypted with the same key where it arrives, is accepted if the length that stands at its
-- front is that of a body inside it: the receiver has the bytes that were sent, that length, and stands at the body.
pub xtea_decrypt-xtea_encrypt :
    (k : Key) (start : ℕ) (m : Message)
    → IsByteArray m.real_buf
    → m.read_pos + 8 < max_body_length
    → start ≤ 8
    → inner_length start m + 2 ≤ (pad m).msg_size
    → xtea_decrypt k (arrived start (xtea_encrypt k start m)) ≡ (
      record {
        real_buf = (pad m).real_buf;
        msg_size = inner_length start m;
        read_pos = start + 2;
        overrun = false;
      },
      true,
    )
unfolding xtea_decrypt xtea_encrypt arrived inner_length get can_read
xtea_decrypt-xtea_encrypt k start m h room front fits =
    let m' = pad m in
    let same : m'.msg_size + 6 - 6 ≡ m'.msg_size = omega arith in
    let undone =
      fun_ext (crypt_blocks_undone k start (pair_count m'.msg_size) m'.real_buf (pad-bytes m h)) in
    rw (same, undone) (ground (arith, pad_lem m room))
