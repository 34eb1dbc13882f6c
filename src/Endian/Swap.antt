-- ===== src/Endian/Swap.antt =====
-- PacketForge_V1/src/common/endian.cpp: the byte swaps as arithmetic on the bytes.
use thread_pool.Base.{ℕ, ◌+◌, ◌*◌, ◌/◌, ◌%◌, ◌^◌, ◌<◌, bit_and, bit_or, ◌≡◌, ap, ◌∙◌, arith}
use thread_pool.Bits.{bit_or_sum, bit_or_comm, bit_and_shifted, bit_and_byte}
use thread_pool.Endian.{swap16, swap32, swap64}

-- The byte that starts at bit `k`, as a mask cuts it out.
masked : (k a : ℕ) → bit_and a (0xff * 2 ^ k) ≡ a / 2 ^ k % 256 * 2 ^ k
masked k a = bit_and_shifted k 0xff a ∙ ap (λ (t : ℕ). t * 2 ^ k) (bit_and_byte (a / 2 ^ k))

pub swap16_bytes : (v : ℕ) → v < 2 ^ 16 → swap16 v ≡ v % 256 * 2 ^ 8 + v / 2 ^ 8
unfolding swap16
swap16_bytes v h =
    rw
      (
        bit_or_comm (v / 2 ^ 8) (v * 2 ^ 8),
        bit_or_sum 8 v (v * 2 ^ 8) (v / 2 ^ 8) (omega arith) (omega arith),
      )
      (omega arith)

-- Bytes with a place of their own each, most significant first.
join32 :
    (a b c d : ℕ)
    → b < 256
    → c < 256
    → d < 256
    → bit_or (bit_or (bit_or (a * 2 ^ 24) (b * 2 ^ 16)) (c * 2 ^ 8)) d
      ≡ a * 2 ^ 24 + b * 2 ^ 16 + c * 2 ^ 8 + d
join32 a b c d hb hc hd = rw (
  bit_or_sum 24 a (a * 2 ^ 24) (b * 2 ^ 16) (omega arith) (omega arith),
  bit_or_sum 16 (a * 256 + b) (a * 2 ^ 24 + b * 2 ^ 16) (c * 2 ^ 8) (omega arith) (omega arith),
  bit_or_sum 8 (a * 65536 + b * 256 + c) (a * 2 ^ 24 + b * 2 ^ 16 + c * 2 ^ 8) d (omega arith)
      (omega arith),
)

module _ (v : ℕ) where
  abbrev byte : ℕ → ℕ
  byte k = v / 2 ^ k % 256

  pub swap32_bytes :
      v < 2 ^ 32 → swap32 v ≡ v % 256 * 2 ^ 24 + byte 8 * 2 ^ 16 + byte 16 * 2 ^ 8 + byte 24
  unfolding swap32
  swap32_bytes h =
      let e1 : v % 256 * 2 ^ 24 % 2 ^ 32 ≡ v % 256 * 2 ^ 24 = omega arith in
      let e2 : byte 8 * 2 ^ 8 * 2 ^ 8 % 2 ^ 32 ≡ byte 8 * 2 ^ 16 = omega arith in
      let e3 : byte 16 * 2 ^ 16 / 2 ^ 8 ≡ byte 16 * 2 ^ 8 = omega arith in
      let e4 : byte 24 * 2 ^ 24 / 2 ^ 24 ≡ byte 24 = omega arith in
      rw (bit_and_byte v, masked 8 v, masked 16 v, masked 24 v, e1, e2, e3, e4)
        (join32 (v % 256) (byte 8) (byte 16) (byte 24) (omega arith) (omega arith) (omega arith))

  join64 :
      (a b c d e f g h : ℕ)
      → b < 256
      → c < 256
      → d < 256
      → e < 256
      → f < 256
      → g < 256
      → h < 256
      → bit_or
          (bit_or
            (bit_or
              (bit_or
                (bit_or (bit_or (bit_or (a * 2 ^ 56) (b * 2 ^ 48)) (c * 2 ^ 40)) (d * 2 ^ 32))
                (e * 2 ^ 24))
              (f * 2 ^ 16))
            (g * 2 ^ 8))
          h
        ≡ a * 2 ^ 56
          + b * 2 ^ 48
          + c * 2 ^ 40
          + d * 2 ^ 32
          + e * 2 ^ 24
          + f * 2 ^ 16
          + g * 2 ^ 8
          + h
  join64 a b c d e f g h hb hc hd he hf hg hh = rw (
    bit_or_sum 56 a (a * 2 ^ 56) (b * 2 ^ 48) (omega arith) (omega arith),
    bit_or_sum 48 (a * 256 + b) (a * 2 ^ 56 + b * 2 ^ 48) (c * 2 ^ 40) (omega arith) (omega arith),
    bit_or_sum 40 (a * 2 ^ 16 + b * 256 + c) (a * 2 ^ 56 + b * 2 ^ 48 + c * 2 ^ 40) (d * 2 ^ 32)
        (omega arith) (omega arith),
    bit_or_sum 32 (a * 2 ^ 24 + b * 2 ^ 16 + c * 256 + d)
        (a * 2 ^ 56 + b * 2 ^ 48 + c * 2 ^ 40 + d * 2 ^ 32) (e * 2 ^ 24) (omega arith)
        (omega arith),
    bit_or_sum 24 (a * 2 ^ 32 + b * 2 ^ 24 + c * 2 ^ 16 + d * 256 + e)
        (a * 2 ^ 56 + b * 2 ^ 48 + c * 2 ^ 40 + d * 2 ^ 32 + e * 2 ^ 24) (f * 2 ^ 16) (omega arith)
        (omega arith),
    bit_or_sum 16 (a * 2 ^ 40 + b * 2 ^ 32 + c * 2 ^ 24 + d * 2 ^ 16 + e * 256 + f)
        (a * 2 ^ 56 + b * 2 ^ 48 + c * 2 ^ 40 + d * 2 ^ 32 + e * 2 ^ 24 + f * 2 ^ 16) (g * 2 ^ 8)
        (omega arith) (omega arith),
    bit_or_sum 8 (a * 2 ^ 48 + b * 2 ^ 40 + c * 2 ^ 32 + d * 2 ^ 24 + e * 2 ^ 16 + f * 256 + g)
        (a * 2 ^ 56 + b * 2 ^ 48 + c * 2 ^ 40 + d * 2 ^ 32 + e * 2 ^ 24 + f * 2 ^ 16 + g * 2 ^ 8) h
        (omega arith) (omega arith),
  )

  pub swap64_bytes :
      v < 2 ^ 64
      → swap64 v
        ≡ v % 256 * 2 ^ 56
          + byte 8 * 2 ^ 48
          + byte 16 * 2 ^ 40
          + byte 24 * 2 ^ 32
          + byte 32 * 2 ^ 24
          + byte 40 * 2 ^ 16
          + byte 48 * 2 ^ 8
          + byte 56
  unfolding swap64
  swap64_bytes h =
      let e1 : v % 256 * 2 ^ 56 % 2 ^ 64 ≡ v % 256 * 2 ^ 56 = omega arith in
      let e2 : byte 8 * 2 ^ 8 * 2 ^ 40 % 2 ^ 64 ≡ byte 8 * 2 ^ 48 = omega arith in
      let e3 : byte 16 * 2 ^ 16 * 2 ^ 24 % 2 ^ 64 ≡ byte 16 * 2 ^ 40 = omega arith in
      let e4 : byte 24 * 2 ^ 24 * 2 ^ 8 % 2 ^ 64 ≡ byte 24 * 2 ^ 32 = omega arith in
      let e5 : byte 32 * 2 ^ 32 / 2 ^ 8 ≡ byte 32 * 2 ^ 24 = omega arith in
      let e6 : byte 40 * 2 ^ 40 / 2 ^ 24 ≡ byte 40 * 2 ^ 16 = omega arith in
      let e7 : byte 48 * 2 ^ 48 / 2 ^ 40 ≡ byte 48 * 2 ^ 8 = omega arith in
      let e8 : byte 56 * 2 ^ 56 / 2 ^ 56 ≡ byte 56 = omega arith in
      rw
        (
          bit_and_byte v,
          masked 8 v,
          masked 16 v,
          masked 24 v,
          masked 32 v,
          masked 40 v,
          masked 48 v,
          masked 56 v,
          e1,
          e2,
          e3,
          e4,
          e5,
          e6,
          e7,
          e8,
        )
        (join64 (v % 256) (byte 8) (byte 16) (byte 24) (byte 32) (byte 40) (byte 48) (byte 56)
          (omega arith) (omega arith) (omega arith) (omega arith) (omega arith) (omega arith)
          (omega arith))

-- Swapping twice changes nothing.
pub swap16-swap16 : (v : ℕ) → v < 2 ^ 16 → swap16 (swap16 v) ≡ v
swap16-swap16 v h =
    let e = swap16_bytes v h in omega (arith, e, swap16_bytes (swap16 v) (omega (arith, e)))

pub swap32-swap32 : (v : ℕ) → v < 2 ^ 32 → swap32 (swap32 v) ≡ v
swap32-swap32 v h =
    let e = swap32_bytes v h in omega (arith, e, swap32_bytes (swap32 v) (omega (arith, e)))

pub swap64-swap64 : (v : ℕ) → v < 2 ^ 64 → swap64 (swap64 v) ≡ v
swap64-swap64 v h =
    let e = swap64_bytes v h in omega (arith, e, swap64_bytes (swap64 v) (omega (arith, e)))
