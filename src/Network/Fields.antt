-- ===== src/Network/Fields.antt =====
-- A packet as the sequence of the fields that are written to it: what the writers leave in the
-- buffer, and that the readers, called in the same order, give it back.
pub mod RoundTrip
use otchronos.Prelude.{
  ℕ, zero, suc, ◌+◌, ◌-◌, ◌^◌, ◌≤◌, ◌<◌, ◌≡◌, refl, ap, ap₂, subst, sym, ◌∙◌, List, [], ◌∷◌, ◌++◌,
  Bool, true, false, not, ◌||◌, ◌==◌, if◌then◌else◌, ltb, leb, arith, length, length-append, lt→ltb,
  le→ltb,
}
use otchronos.Network.Bytes.{
  Buffer, put_bytes, get_bytes, encode, decode, Holds, Holds-put_bytes, Holds-agree, Holds-append,
  Holds-left, Holds-right, get_bytes-Holds, put_bytes-below, length-encode, decode-encode2,
  decode-encode4,
}
use otchronos.Network.Message.{
  Message, Position, max_size, max_body_length, can_add, can_read, get, add, get_chars, get_string,
  append_bytes, add_string, add_position, get_position,
}

pub data Field : Type 0 where
  byte word long : ℕ → Field
  text : List ℕ → Field
  place : Position → Field

unfoldable pub write : Field → Message → Message
unfolding add add_string add_position
write (byte v) m = add 1 v m
write (word v) m = add 2 v m
write (long v) m = add 4 v m
write (text s) m = add_string s m
write (place p) m = add_position p m

-- The reader of a field of the same kind.
unfoldable pub read : Field → Message → Field × Message
unfolding get get_string get_position
read (byte _) m = let (v, m') = get 1 m in (byte v, m')
read (word _) m = let (v, m') = get 2 m in (word v, m')
read (long _) m = let (v, m') = get 4 m in (long v, m')
read (text _) m = let (s, m') = get_string 0 m in (text s, m')
read (place _) m = let (p, m') = get_position m in (place p, m')

-- The values that the C++ types can hold, and the longest string that `AddString` takes.
abbrev pub Fits : Field → Type 0
Fits (byte v) = v < 2 ^ 8
Fits (word v) = v < 2 ^ 16
Fits (long v) = v < 2 ^ 32
Fits (text s) = length s ≤ 8192
Fits (place p) = (p.x < 2 ^ 16) × (p.y < 2 ^ 16) × (p.z < 2 ^ 8)

unfoldable pub bytes : Field → List ℕ
unfolding encode
bytes (byte v) = encode 1 v
bytes (word v) = encode 2 v
bytes (long v) = encode 4 v
bytes (text s) = encode 2 (length s) ++ s
bytes (place p) = encode 2 p.x ++ (encode 2 p.y ++ encode 1 p.z)

-- What a writer that has room does.
pub record Wrote (xs : List ℕ) (m m' : Message) : Type 0 where
  pub moved : m'.read_pos ≡ m.read_pos + length xs
  pub grown : m'.msg_size ≡ m.msg_size + length xs
  pub held : Holds m'.real_buf m.read_pos xs
  pub below : (q : ℕ) → q < m.read_pos → m'.real_buf q ≡ m.real_buf q
  pub clean : m'.overrun ≡ m.overrun

append-Wrote : (s : List ℕ) (m : Message) → Wrote s m (append_bytes s m)
unfolding append_bytes
append-Wrote s m = record {
  moved = refl;
  grown = refl;
  held = Holds-put_bytes s m.read_pos m.real_buf;
  below = λ q h. put_bytes-below s m.read_pos m.real_buf q h;
  clean = refl;
}

pub Wrote-trans :
    {xs ys : List ℕ} {m m' m'' : Message} → Wrote xs m m' → Wrote ys m' m'' → Wrote (xs ++ ys) m m''
Wrote-trans {xs} {ys} {m} {m'} {m''} r s = record {
  moved = omega (arith, r.moved, s.moved, length-append xs ys);
  grown = omega (arith, r.grown, s.grown, length-append xs ys);
  held =
      Holds-append xs ys m.read_pos m''.real_buf
        (Holds-agree xs m.read_pos m'.real_buf m''.real_buf
          (λ q k l. s.below q (omega (arith, r.moved))) r.held)
        (subst (λ j. Holds m''.real_buf j ys) r.moved s.held);
  below = λ q h. s.below q (omega (arith, r.moved)) ∙ r.below q h;
  clean = s.clean ∙ r.clean;
}

add-Wrote :
    (w v : ℕ) (m : Message) → w + m.read_pos < max_body_length → Wrote (encode w v) m (add w v m)
unfolding add can_add
add-Wrote w v m h = rw (lt→ltb (w + m.read_pos) max_body_length h) (record {
  moved = omega (arith, length-encode w v);
  grown = omega (arith, length-encode w v);
  held = Holds-put_bytes (encode w v) m.read_pos m.real_buf;
  below = λ q k. put_bytes-below (encode w v) m.read_pos m.real_buf q k;
  clean = refl;
})

-- A writer that has room appends the bytes of its field.
pub write-Wrote :
    (f : Field) (m : Message)
    → Fits f
    → length (bytes f) + m.read_pos < max_body_length
    → Wrote (bytes f) m (write f m)
unfolding write bytes
write-Wrote (byte v) m k h = add-Wrote 1 v m h
write-Wrote (word v) m k h = add-Wrote 2 v m h
write-Wrote (long v) m k h = add-Wrote 4 v m h
write-Wrote (text s) m k h =
    unfold add_string can_add in
    rw (lt→ltb (length s + 2 + m.read_pos) max_body_length (omega arith), le→ltb 8192 (length s) k)
      (Wrote-trans (add-Wrote 2 (length s) m (omega arith)) (append-Wrote s _))
write-Wrote (place p) m k h =
    let r = add-Wrote 2 p.x m (omega arith) in
    let s = add-Wrote 2 p.y (add 2 p.x m) (omega (arith, r.moved, length-encode 2 p.x)) in
    Wrote-trans r (
      Wrote-trans s (
        add-Wrote 1 p.z _
          (omega (arith, r.moved, s.moved, length-encode 2 p.x, length-encode 2 p.y))))

abbrev pub at : ℕ → Message → Message
at i m = record m { read_pos = i }

pub get-held :
    (w v : ℕ) (m : Message)
    → Holds m.real_buf m.read_pos (encode w v)
    → m.read_pos + w ≤ m.msg_size + 8
    → m.read_pos + w < max_size
    → get w m ≡ (decode (encode w v), at (m.read_pos + w) m)
unfolding get can_read
get-held w v m h k l =
    let e = get_bytes-Holds (encode w v) m.read_pos m.real_buf h in
    ground (arith, e, length-encode w v)

pub get_chars-held :
    (s : List ℕ) (m : Message)
    → Holds m.real_buf m.read_pos s
    → m.read_pos + length s ≤ m.msg_size + 8
    → m.read_pos + length s < max_size
    → get_chars (length s) m ≡ (s, at (m.read_pos + length s) m)
unfolding get_chars can_read
get_chars-held s m h k l = let e = get_bytes-Holds s m.read_pos m.real_buf h in ground (arith, e)
