-- ===== src/Network/Tests.antt =====
-- Messages to which the theorems on the wire are applied.
use otchronos.Prelude.{◌≡◌, refl, List, [], ◌∷◌, true, false, arith, ◌==◌, if◌then◌else◌}
use otchronos.Network.Message.{Message}
use otchronos.Network.Fields.{Field, byte, word, long, text, place}
use otchronos.Network.Fields.RoundTrip.{write_all, all_bytes, read_all-write_all}
use otchronos.Network.Xtea.{Key, decrypt_pair, encrypt_pair, xtea_encrypt, xtea_decrypt, pad}
use otchronos.Network.Xtea.Rounds.{decrypt_pair-encrypt_pair}
use otchronos.Network.Xtea.Blocks.{IsByteArray}
use otchronos.Network.Xtea.Packets.{arrived, inner_length, xtea_decrypt-xtea_encrypt}
use otchronos.Network.Adler.{adler_sums, adler_spec, adler_checksum, adler_sums-spec}

abbrev blank : Message
blank = record { real_buf = λ q. 0; msg_size = 0; read_pos = 8; overrun = false }

-- An opcode, a name, a place and a number.
abbrev packet : List Field
packet =
    byte 0x6d
    ∷ text (65 ∷ 66 ∷ [])
    ∷ place (record { x = 100; y = 32000; z = 7 })
    ∷ long 4000000000
    ∷ word 513
    ∷ []

read_all-write_all_example : (write_all packet blank).overrun ≡ false
unfolding all_bytes
read_all-write_all_example = (read_all-write_all packet blank (omega arith) refl (omega arith)).1

abbrev some_key : Key
some_key = record { k₀ = 0x01234567; k₁ = 0x89abcdef; k₂ = 0xfedcba98; k₃ = 0x76543210 }

decrypt_pair-encrypt_pair_example : decrypt_pair some_key (encrypt_pair some_key (1, 2)) ≡ (1, 2)
decrypt_pair-encrypt_pair_example =
    decrypt_pair-encrypt_pair some_key 1 2 (omega arith) (omega arith)

-- The length 2 stands at 6, and two bytes behind it.
abbrev body : Message
body = record {
  real_buf = λ q. if q == 6 then 2 else if q == 8 then 65 else if q == 9 then 66 else 0;
  msg_size = 4;
  read_pos = 10;
  overrun = false;
}

body-IsByteArray : IsByteArray body.real_buf
body-IsByteArray q = ground arith

xtea_decrypt-xtea_encrypt_example :
    xtea_decrypt some_key (arrived 6 (xtea_encrypt some_key 6 body))
    ≡ (record { real_buf = (pad body).real_buf; msg_size = 2; read_pos = 8; overrun = false }, true)
unfolding inner_length
xtea_decrypt-xtea_encrypt_example =
    xtea_decrypt-xtea_encrypt some_key 6 body body-IsByteArray (omega arith) (omega arith)
      (omega arith)

adler_sums-spec_example : adler_sums (87 ∷ 105 ∷ 107 ∷ []) ≡ adler_spec (87 ∷ 105 ∷ 107 ∷ []) 1 0
adler_sums-spec_example = adler_sums-spec (87 ∷ 105 ∷ 107 ∷ []) (omega arith)

-- The checksum of "Wikipedia", as published.
checksum_of_a_word :
    adler_checksum (87 ∷ 105 ∷ 107 ∷ 105 ∷ 112 ∷ 101 ∷ 100 ∷ 105 ∷ 97 ∷ []) ≡ 0x11e60398
unfolding adler_checksum
checksum_of_a_word = refl
