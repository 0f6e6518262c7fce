-- ===== src/Core/Sha256.antt =====
-- SHA-256, trusted_core/src/dezhan-trusted_core-hashing.adb. Words are numbers below 2 ^ 32 and bytes
-- numbers below 256.
use Prim.Native.Nat.{bit_and, bit_or, bit_xor}
use dezhan.Base.{
  ℕ, zero, suc, ◌+◌, ◌-◌, ◌*◌, ◌/◌, ◌%◌, ◌^◌, List, [], ◌∷◌, ◌++◌, length, take, drop,
}

-- Word addition wraps.
infixl 60 ◌⊞◌
abbrev pub ◌⊞◌ : ℕ → ℕ → ℕ
a ⊞ b = (a + b) % 2 ^ 32

abbrev pub not32 : ℕ → ℕ
not32 x = 2 ^ 32 - 1 - x

abbrev pub shr : ℕ → ℕ → ℕ
shr x n = x / 2 ^ n

abbrev pub rotr : ℕ → ℕ → ℕ
rotr x n = bit_or (x / 2 ^ n) (x % 2 ^ n * 2 ^ (32 - n))

abbrev pub ch : ℕ → ℕ → ℕ → ℕ
ch x y z = bit_xor (bit_and x y) (bit_and (not32 x) z)

abbrev pub maj : ℕ → ℕ → ℕ → ℕ
maj x y z = bit_xor (bit_xor (bit_and x y) (bit_and x z)) (bit_and y z)

abbrev pub big_sigma0 : ℕ → ℕ
big_sigma0 x = bit_xor (bit_xor (rotr x 2) (rotr x 13)) (rotr x 22)

abbrev pub big_sigma1 : ℕ → ℕ
big_sigma1 x = bit_xor (bit_xor (rotr x 6) (rotr x 11)) (rotr x 25)

abbrev pub small_sigma0 : ℕ → ℕ
small_sigma0 x = bit_xor (bit_xor (rotr x 7) (rotr x 18)) (shr x 3)

abbrev pub small_sigma1 : ℕ → ℕ
small_sigma1 x = bit_xor (bit_xor (rotr x 17) (rotr x 19)) (shr x 10)

-- the round constants K
abbrev pub round_constants : List ℕ
round_constants =
    0x428a2f98 ∷ 0x71374491 ∷ 0xb5c0fbcf ∷ 0xe9b5dba5 ∷ 0x3956c25b ∷ 0x59f111f1 ∷ 0x923f82a4
    ∷ 0xab1c5ed5 ∷ 0xd807aa98 ∷ 0x12835b01 ∷ 0x243185be ∷ 0x550c7dc3 ∷ 0x72be5d74 ∷ 0x80deb1fe
    ∷ 0x9bdc06a7 ∷ 0xc19bf174 ∷ 0xe49b69c1 ∷ 0xefbe4786 ∷ 0x0fc19dc6 ∷ 0x240ca1cc ∷ 0x2de92c6f
    ∷ 0x4a7484aa ∷ 0x5cb0a9dc ∷ 0x76f988da ∷ 0x983e5152 ∷ 0xa831c66d ∷ 0xb00327c8 ∷ 0xbf597fc7
    ∷ 0xc6e00bf3 ∷ 0xd5a79147 ∷ 0x06ca6351 ∷ 0x14292967 ∷ 0x27b70a85 ∷ 0x2e1b2138 ∷ 0x4d2c6dfc
    ∷ 0x53380d13 ∷ 0x650a7354 ∷ 0x766a0abb ∷ 0x81c2c92e ∷ 0x92722c85 ∷ 0xa2bfe8a1 ∷ 0xa81a664b
    ∷ 0xc24b8b70 ∷ 0xc76c51a3 ∷ 0xd192e819 ∷ 0xd6990624 ∷ 0xf40e3585 ∷ 0x106aa070 ∷ 0x19a4c116
    ∷ 0x1e376c08 ∷ 0x2748774c ∷ 0x34b0bcb5 ∷ 0x391c0cb3 ∷ 0x4ed8aa4a ∷ 0x5b9cca4f ∷ 0x682e6ff3
    ∷ 0x748f82ee ∷ 0x78a5636f ∷ 0x84c87814 ∷ 0x8cc70208 ∷ 0x90befffa ∷ 0xa4506ceb ∷ 0xbef9a3f7
    ∷ 0xc67178f2 ∷ []

-- A, B, C, D, E, F, G, Hh, and the state H between the blocks
pub record Registers : Type 0 where
  pub a : ℕ
  pub b : ℕ
  pub c : ℕ
  pub d : ℕ
  pub e : ℕ
  pub f : ℕ
  pub g : ℕ
  pub h : ℕ

-- H0
abbrev pub initial : Registers
initial = record {
  a = 0x6a09e667;
  b = 0xbb67ae85;
  c = 0x3c6ef372;
  d = 0xa54ff53a;
  e = 0x510e527f;
  f = 0x9b05688c;
  g = 0x1f83d9ab;
  h = 0x5be0cd19;
}

unfoldable pub round : Registers → ℕ → ℕ → Registers
round r k w =
    let t1 = r.h ⊞ big_sigma1 r.e ⊞ ch r.e r.f r.g ⊞ k ⊞ w in
    let t2 = big_sigma0 r.a ⊞ maj r.a r.b r.c in
    record { a = t1 ⊞ t2; b = r.a; c = r.b; d = r.c; e = r.d ⊞ t1; f = r.e; g = r.f; h = r.g }

unfoldable pub rounds : Registers → List ℕ → List ℕ → Registers
unfolding round
rounds r [] ws = r
rounds r (k ∷ ks) [] = r
rounds r (k ∷ ks) (w ∷ ws) = rounds (round r k w) ks ws

-- the bytes as words, big-endian
unfoldable pub words : List ℕ → List ℕ
words (p ∷ q ∷ r ∷ s ∷ rest) =
    bit_or (bit_or (bit_or (p * 2 ^ 24) (q * 2 ^ 16)) (r * 2 ^ 8)) s ∷ words rest
words rest = []

-- W (I), and 0 outside the array
abbrev pub nth : ℕ → List ℕ → ℕ
nth n [] = 0
nth zero (w ∷ ws) = w
nth (suc n) (w ∷ ws) = nth n ws

-- From the sixteen words before it, the rest of the schedule, n words more.
unfoldable pub schedule : ℕ → List ℕ → List ℕ
schedule zero last = []
schedule (suc n) last =
    let w = small_sigma1 (nth 14 last) ⊞ nth 9 last ⊞ small_sigma0 (nth 1 last) ⊞ nth 0 last in
    w ∷ schedule n (drop 1 last ++ w ∷ [])

-- H + (A, ..., Hh)
abbrev pub add_registers : Registers → Registers → Registers
add_registers x y = record {
  a = x.a ⊞ y.a;
  b = x.b ⊞ y.b;
  c = x.c ⊞ y.c;
  d = x.d ⊞ y.d;
  e = x.e ⊞ y.e;
  f = x.f ⊞ y.f;
  g = x.g ⊞ y.g;
  h = x.h ⊞ y.h;
}

unfoldable pub block : Registers → List ℕ → Registers
unfolding rounds words schedule
block r bytes =
    let w = words bytes in add_registers r (rounds r round_constants (w ++ schedule 48 w))

unfoldable pub blocks : ℕ → Registers → List ℕ → Registers
unfolding block
blocks zero r buf = r
blocks (suc n) r buf = blocks n (block r (take 64 buf)) (drop 64 buf)

-- Byte (Shift_Right (V, 8 * K) and 16#FF#)
abbrev pub byte_of : ℕ → ℕ → ℕ
byte_of v k = v / 2 ^ (8 * k) % 256

-- 64 bits and 32 bits, big-endian
unfoldable pub put64 : ℕ → List ℕ
put64 v =
    byte_of v 7
    ∷ byte_of v 6
    ∷ byte_of v 5
    ∷ byte_of v 4
    ∷ byte_of v 3
    ∷ byte_of v 2
    ∷ byte_of v 1
    ∷ byte_of v 0
    ∷ []

abbrev pub put32 : ℕ → List ℕ
put32 v = byte_of v 3 ∷ byte_of v 2 ∷ byte_of v 1 ∷ byte_of v 0 ∷ []

abbrev pub zeros : ℕ → List ℕ
zeros zero = []
zeros (suc n) = 0 ∷ zeros n

-- NB
abbrev pub block_count : ℕ → ℕ
block_count len = (len + 8) / 64 + 1

-- The message, the end mark, zeros, and the length in bits.
unfoldable pub padded : List ℕ → List ℕ
unfolding put64
padded msg =
    let len = length msg in
    msg ++ 0x80 ∷ (zeros (block_count len * 64 - 9 - len) ++ put64 (len * 8))

-- SHA256; the precondition that the message has at most 8192 bytes is for the caller: an entry has 89,
-- and Name_Digest is where it can fail.
unfoldable pub sha256 : List ℕ → List ℕ
unfolding blocks padded
sha256 msg =
    let r = blocks (block_count (length msg)) initial (padded msg) in
    put32 r.a
    ++ (put32 r.b
        ++ (put32 r.c ++ (put32 r.d ++ (put32 r.e ++ (put32 r.f ++ (put32 r.g ++ put32 r.h))))))
