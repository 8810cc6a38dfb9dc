-- ===== src/Network/Xtea/Rounds.antt =====
-- The rounds of decryption undo those of encryption.
use otchronos.Prelude.{ℕ, zero, suc, ◌<◌, ◌≡◌, refl, ap, sym, ◌∙◌, arith}
use otchronos.Network.Xtea.{
  word_mod, delta, add32, sub32, Key, mix, low_key, high_key, Block, encrypt_round, decrypt_round,
  rounds, encrypt_pair, decrypt_pair,
}

pub record IsWord (b : Block) : Type 0 where
  pub low : b.v₀ < word_mod
  pub high : b.v₁ < word_mod
  pub total : b.sum < word_mod

sub32-add32 : (a x : ℕ) → a < word_mod → sub32 (add32 a x) x ≡ a
sub32-add32 a x h = omega arith

add32-sub32 : (a x : ℕ) → a < word_mod → add32 (sub32 a x) x ≡ a
add32-sub32 a x h = omega arith

encrypt_round-IsWord : (k : Key) (b : Block) → IsWord (encrypt_round k b)
unfolding encrypt_round
encrypt_round-IsWord k b = record { low = omega arith; high = omega arith; total = omega arith }

-- One round, undone.
decrypt_round-encrypt_round :
    (k : Key) (b : Block) → IsWord b → decrypt_round k (encrypt_round k b) ≡ b
unfolding encrypt_round decrypt_round
decrypt_round-encrypt_round k b w =
    let s' = sub32 b.sum delta in
    let v₀' = add32 b.v₀ (mix b.v₁ b.sum (low_key k b.sum)) in
    rw (
      sub32-add32 b.v₁ (mix v₀' s' (high_key k s')) w.high,
      add32-sub32 b.sum delta w.total,
      sub32-add32 b.v₀ (mix b.v₁ b.sum (low_key k b.sum)) w.low,
    )

rounds-last : (f : Block → Block) (n : ℕ) (b : Block) → rounds f (suc n) b ≡ f (rounds f n b)
unfolding rounds
rounds-last f zero b = refl
rounds-last f (suc n) b = rounds-last f n (f b)

-- As many rounds of decryption as of encryption give the block back, `sum` included.
rounds_undone :
    (k : Key) (n : ℕ) (b : Block)
    → IsWord b
    → rounds (decrypt_round k) n (rounds (encrypt_round k) n b) ≡ b
unfolding rounds
rounds_undone k zero b w = refl
rounds_undone k (suc n) b w =
    rounds-last (decrypt_round k) n (rounds (encrypt_round k) (suc n) b)
    ∙ ap (decrypt_round k) (rounds_undone k n (encrypt_round k b) (encrypt_round-IsWord k b))
    ∙ decrypt_round-encrypt_round k b w

-- `sum` does not depend on the block: this is where the 32 rounds leave it.
sum_after : ℕ → ℕ → ℕ
sum_after zero s = s
sum_after (suc n) s = sum_after n (sub32 s delta)

rounds-sum : (k : Key) (n : ℕ) (b : Block) → (rounds (encrypt_round k) n b).sum ≡ sum_after n b.sum
unfolding rounds sum_after encrypt_round
rounds-sum k zero b = refl
rounds-sum k (suc n) b = rounds-sum k n (encrypt_round k b)

sum_after_32 : sum_after 32 0 ≡ 0xc6ef3720
unfolding sum_after
sum_after_32 = refl

rounds-IsWord : (k : Key) (n : ℕ) (b : Block) → IsWord b → IsWord (rounds (encrypt_round k) n b)
unfolding rounds
rounds-IsWord k zero b w = w
rounds-IsWord k (suc n) b w = rounds-IsWord k n (encrypt_round k b) (encrypt_round-IsWord k b)

abbrev first_block : ℕ → ℕ → Block
first_block a b = record { v₀ = a; v₁ = b; sum = 0 }

pub encrypt_pair_bounds :
    (k : Key) (a b : ℕ)
    → a < word_mod
    → b < word_mod
    → ((encrypt_pair k (a, b)).0 < word_mod) × ((encrypt_pair k (a, b)).1 < word_mod)
unfolding encrypt_pair
encrypt_pair_bounds k a b h l =
    let w =
      rounds-IsWord k 32 (first_block a b) (record { low = h; high = l; total = omega arith }) in
    (w.low, w.high)

-- Two words that are encrypted and then decrypted under one key come back.
pub decrypt_pair-encrypt_pair :
    (k : Key) (a b : ℕ)
    → a < word_mod
    → b < word_mod
    → decrypt_pair k (encrypt_pair k (a, b)) ≡ (a, b)
unfolding encrypt_pair decrypt_pair
decrypt_pair-encrypt_pair k a b h l =
    let start = first_block a b in
    let done = rounds (encrypt_round k) 32 start in
    let total : done.sum ≡ 0xc6ef3720 = rounds-sum k 32 start ∙ sum_after_32 in
    let undone = rounds_undone k 32 start (record { low = h; high = l; total = omega arith }) in
    let same : record done { sum = 0xc6ef3720 } ≡ done = λ i. record done { sum = sym total i } in
    ap (λ (r : Block). let d = rounds (decrypt_round k) 32 r in (d.v₀, d.v₁)) same
    ∙ ap (λ (r : Block). (r.v₀, r.v₁)) undone
