-- ===== src/Network/Message.antt =====
-- `class NetworkMessage`. Sizes and positions are plain numbers: the server never makes them
-- negative. A string is the list of its bytes.
use otchronos.Prelude.{
  ℕ, zero, suc, ◌+◌, ◌-◌, ◌%◌, ◌^◌, List, [], ◌∷◌, Bool, true, false, ◌||◌, not, ◌==◌,
  if◌then◌else◌, ltb, leb, length,
}
use otchronos.Network.Bytes.{Buffer, put_bytes, get_bytes, encode, decode}

-- NETWORKMESSAGE_MAXSIZE.
abbrev pub max_size : ℕ
max_size = 24590

-- `max_body_length`: less the header, the checksum and one cipher block.
abbrev pub max_body_length : ℕ
max_body_length = max_size - 2 - 4 - 8

pub record Message : Type 0 where
  pub real_buf : Buffer
  pub msg_size : ℕ
  pub read_pos : ℕ
  pub overrun : Bool

pub record Position : Type 0 where
  pub x : ℕ
  pub y : ℕ
  pub z : ℕ

-- `Reset`: the bytes stay.
unfoldable pub reset : Message → Message
reset m = record m { overrun = false; msg_size = 0; read_pos = 8 }

unfoldable pub can_add : ℕ → Message → Bool
can_add size m = ltb (size + m.read_pos) max_body_length

-- The test of `canRead`; `canRead` itself notes a failure in `overrun`, as the readers below do.
unfoldable pub can_read : ℕ → Message → Bool
can_read size m = not (ltb (m.msg_size + 8) (m.read_pos + size) || leb (max_size - m.read_pos) size)

-- `get<T>()`, with `sizeof(T)` bytes; at one byte it is `GetByte`.
unfoldable pub get : ℕ → Message → ℕ × Message
unfolding can_read decode get_bytes
get w m =
    if can_read w m
    then (decode (get_bytes w m.read_pos m.real_buf), record m { read_pos = m.read_pos + w })
    else (0, record m { overrun = true })

-- `add<T>(v)`, with `sizeof(T)` bytes; at one byte it is `AddByte`.
unfoldable pub add : ℕ → ℕ → Message → Message
unfolding can_add put_bytes encode
add w v m =
    if can_add w m
    then record m {
      real_buf = put_bytes (encode w v) m.read_pos m.real_buf;
      read_pos = m.read_pos + w;
      msg_size = m.msg_size + w;
    }
    else m

unfoldable pub skip_bytes : ℕ → Message → Message
skip_bytes n m = record m { read_pos = m.read_pos + n }

-- The bytes of a string, once its length is known.
unfoldable pub get_chars : ℕ → Message → List ℕ × Message
unfolding can_read get_bytes
get_chars n m =
    if can_read n m
    then (get_bytes n m.read_pos m.real_buf, record m { read_pos = m.read_pos + n })
    else ([], record m { overrun = true })

-- `GetString(stringlen)`; at 0 the length is read first.
unfoldable pub get_string : ℕ → Message → List ℕ × Message
unfolding get get_chars
get_string n m = if n == 0 then (let (k, m') = get 2 m in get_chars k m') else get_chars n m

-- `GetRaw`. Its argument is an `uint16_t`.
unfoldable pub get_raw : Message → List ℕ × Message
unfolding get_string
get_raw m = get_string ((m.msg_size + 2 ^ 16 - m.read_pos % 2 ^ 16) % 2 ^ 16) m

-- `memcpy` to the write position, which moves on.
unfoldable pub append_bytes : List ℕ → Message → Message
unfolding put_bytes
append_bytes s m = record m {
  real_buf = put_bytes s m.read_pos m.real_buf;
  read_pos = m.read_pos + length s;
  msg_size = m.msg_size + length s;
}

unfoldable pub add_string : List ℕ → Message → Message
unfolding can_add add append_bytes
add_string s m =
    if not (can_add (length s + 2) m) || ltb 8192 (length s)
    then m
    else append_bytes s (add 2 (length s) m)

unfoldable pub add_bytes : List ℕ → Message → Message
unfolding can_add append_bytes
add_bytes s m = if not (can_add (length s) m) || ltb 8192 (length s) then m else append_bytes s m

-- `n` times 0x33, behind the write position, which stays.
unfoldable pub padding : ℕ → List ℕ
padding zero = []
padding (suc n) = 0x33 ∷ padding n

unfoldable pub add_padding_bytes : ℕ → Message → Message
unfolding can_add put_bytes padding
add_padding_bytes n m = if not (can_add n m) then m else record m {
  real_buf = put_bytes (padding n) m.read_pos m.real_buf;
  msg_size = m.msg_size + n;
}

unfoldable pub add_position : Position → Message → Message
unfolding add
add_position p m = add 1 p.z (add 2 p.y (add 2 p.x m))

unfoldable pub get_position : Message → Position × Message
unfolding get
get_position m =
    let (x, m₁) = get 2 m in
    let (y, m₂) = get 2 m₁ in let (z, m₃) = get 1 m₂ in (record { x = x; y = y; z = z }, m₃)

-- `decodeHeader`: the first two bytes are the size of the body.
unfoldable pub decode_header : Message → ℕ × Message
unfolding decode get_bytes
decode_header m =
    let size = decode (get_bytes 2 0 m.real_buf) in (size, record m { msg_size = size })
