-- ===== src/Network/Fields/RoundTrip.antt =====
-- The readers give back what the writers wrote.
use otchronos.Prelude.{
  ℕ, ◌+◌, ◌≤◌, ◌<◌, ◌≡◌, refl, ap, sym, ◌∙◌, List, [], ◌∷◌, ◌++◌, arith, length, length-append,
}
use otchronos.Network.Bytes.{
  encode, Holds, Holds-left, Holds-right, decode-encode1, decode-encode2, decode-encode4,
}
use otchronos.Network.Message.{Message, max_size, max_body_length, get_position}
use otchronos.Network.Fields.{
  Field, byte, word, long, text, place, write, read, Fits, bytes, Wrote, Wrote-trans, write-Wrote,
  at, get-held, get_chars-held,
}

-- A field is read where its bytes stand.
read-held :
    (f : Field) (m : Message)
    → Fits f
    → Holds m.real_buf m.read_pos (bytes f)
    → m.read_pos + length (bytes f) ≤ m.msg_size + 8
    → m.read_pos + length (bytes f) < max_size
    → read f m ≡ (f, at (m.read_pos + length (bytes f)) m)
unfolding read bytes
read-held (byte v) m k h r l = rw (get-held 1 v m h (omega arith) (omega arith), decode-encode1 v k)
read-held (word v) m k h r l = rw (get-held 2 v m h (omega arith) (omega arith), decode-encode2 v k)
read-held (long v) m k h r l = rw (get-held 4 v m h (omega arith) (omega arith), decode-encode4 v k)
read-held (text s) m k h r l =
    let at_chars = at (m.read_pos + 2) m in
    let chars = Holds-right (encode 2 (length s)) s m.read_pos m.real_buf h in
    rw
      (
        get-held 2 (length s) m (Holds-left (encode 2 (length s)) s m.read_pos m.real_buf h)
            (omega arith) (omega arith),
        decode-encode2 (length s) (omega arith),
        get_chars-held s at_chars chars (omega arith) (omega arith),
      )
      (ap (λ j. (text s, at j m)) (omega arith))
read-held (place p) m k h r l =
    let b = m.real_buf in
    let i = m.read_pos in
    let later = Holds-right (encode 2 p.x) (encode 2 p.y ++ encode 1 p.z) i b h in
    let first =
      get-held 2 p.x m (Holds-left (encode 2 p.x) (encode 2 p.y ++ encode 1 p.z) i b h)
        (omega arith) (omega arith) in
    let second =
      get-held 2 p.y (at (i + 2) m) (Holds-left (encode 2 p.y) (encode 1 p.z) (i + 2) b later)
        (omega arith) (omega arith) in
    let third =
      get-held 1 p.z (at (i + 2 + 2) m) (Holds-right (encode 2 p.y) (encode 1 p.z) (i + 2) b later)
        (omega arith) (omega arith) in
    rw
      (
        get_position,
        first,
        second,
        third,
        decode-encode2 p.x k.0,
        decode-encode2 p.y k.1,
        decode-encode1 p.z k.2,
      )
      (ap (λ j. (place p, at j m)) (omega arith))

-- The calls of a handler that sends a packet, and of one that parses it.
pub write_all : List Field → Message → Message
unfolding write
write_all [] m = m
write_all (f ∷ fs) m = write_all fs (write f m)

pub read_all : List Field → Message → List Field × Message
unfolding read
read_all [] m = ([], m)
read_all (f ∷ fs) m = let (g, m') = read f m in let (gs, m'') = read_all fs m' in (g ∷ gs, m'')

abbrev pub AllFit : List Field → Type 0
AllFit [] = Unit {0}
AllFit (f ∷ fs) = Fits f × AllFit fs

unfoldable pub all_bytes : List Field → List ℕ
unfolding bytes
all_bytes [] = []
all_bytes (f ∷ fs) = bytes f ++ all_bytes fs

write_all-Wrote :
    (fs : List Field) (m : Message)
    → AllFit fs
    → length (all_bytes fs) + m.read_pos < max_body_length
    → Wrote (all_bytes fs) m (write_all fs m)
unfolding write_all all_bytes
write_all-Wrote [] m k h = record {
  moved = omega arith;
  grown = omega arith;
  held = tt;
  below = λ q l. refl;
  clean = refl;
}
write_all-Wrote (f ∷ fs) m k h =
    let l = length-append (bytes f) (all_bytes fs) in
    let w = write-Wrote f m k.0 (omega (arith, l)) in
    Wrote-trans w (write_all-Wrote fs (write f m) k.1 (omega (arith, l, w.moved)))

read_all-held :
    (fs : List Field) (m : Message)
    → AllFit fs
    → Holds m.real_buf m.read_pos (all_bytes fs)
    → m.read_pos + length (all_bytes fs) ≤ m.msg_size + 8
    → m.read_pos + length (all_bytes fs) < max_size
    → read_all fs m ≡ (fs, at (m.read_pos + length (all_bytes fs)) m)
unfolding read_all all_bytes
read_all-held [] m k h r l = ap (λ j. ([], at j m)) (omega arith)
read_all-held (f ∷ fs) m k h r l =
    let n = length-append (bytes f) (all_bytes fs) in
    let i = m.read_pos in
    let m' = at (i + length (bytes f)) m in
    let first =
      read-held f m k.0 (Holds-left (bytes f) (all_bytes fs) i m.real_buf h) (omega (arith, n))
        (omega (arith, n)) in
    let others =
      read_all-held fs m' k.1 (Holds-right (bytes f) (all_bytes fs) i m.real_buf h)
        (omega (arith, n)) (omega (arith, n)) in
    rw (first, others) (ap (λ j. (f ∷ fs, at j m)) (omega (arith, n)))

-- A packet that is written to a message whose write position stands behind its body, with room for
-- it, and read from the position where it began, gives back every field in order; the reader then
-- stands behind the last byte, and nothing is noted as an overrun.
pub read_all-write_all :
    (fs : List Field) (m : Message)
    → AllFit fs
    → m.read_pos ≡ m.msg_size + 8
    → length (all_bytes fs) + m.read_pos < max_body_length
    → let sent = write_all fs m in
      (read_all fs (at m.read_pos sent) ≡ (fs, sent)) × (sent.overrun ≡ m.overrun)
read_all-write_all fs m k e h =
    let w = write_all-Wrote fs m k h in
    (
      read_all-held fs (at m.read_pos (write_all fs m)) k w.held (omega (arith, w.grown))
            (omega arith)
          ∙ ap (λ j. (fs, at j (write_all fs m))) (sym w.moved),
      w.clean,
    )
