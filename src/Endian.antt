-- ===== src/Endian.antt =====
-- PacketForge_V1/src/common/endian.cpp, and the objects in memory that its results become.
-- The byte order of the host (`Endian::hostEndianness`) is an argument of each function.
pub mod Swap
pub mod Order
use thread_pool.Base.{
  ℕ, zero, suc, ◌+◌, ◌*◌, ◌/◌, ◌%◌, ◌^◌, ◌<◌, bit_and, bit_or, List, [], ◌∷◌, reverse, length,
}

pub data Endianness : Type 0 where
  little big : Endianness

-- The operand is promoted to `int`, where no bit is lost; the result is cut to 16 bits.
pub swap16 : ℕ → ℕ
swap16 value = bit_or (value / 2 ^ 8) (value * 2 ^ 8) % 2 ^ 16

abbrev shl32 : ℕ → ℕ → ℕ
shl32 v k = v * 2 ^ k % 2 ^ 32

pub swap32 : ℕ → ℕ
swap32 value =
    bit_or
      (bit_or (bit_or (shl32 (bit_and value 0x000000FF) 24) (shl32 (bit_and value 0x0000FF00) 8))
        (bit_and value 0x00FF0000 / 2 ^ 8))
      (bit_and value 0xFF000000 / 2 ^ 24)

abbrev shl64 : ℕ → ℕ → ℕ
shl64 v k = v * 2 ^ k % 2 ^ 64

-- The four masks that move up, then the four that move down.
pub swap64 : ℕ → ℕ
swap64 value =
    bit_or
      (bit_or
        (bit_or
          (bit_or
            (bit_or
              (bit_or
                (bit_or (shl64 (bit_and value 0x00000000000000FF) 56)
                  (shl64 (bit_and value 0x000000000000FF00) 40))
                (shl64 (bit_and value 0x0000000000FF0000) 24))
              (shl64 (bit_and value 0x00000000FF000000) 8))
            (bit_and value 0x000000FF00000000 / 2 ^ 8))
          (bit_and value 0x0000FF0000000000 / 2 ^ 24))
        (bit_and value 0x00FF000000000000 / 2 ^ 40))
      (bit_and value 0xFF00000000000000 / 2 ^ 56)

-- The three unsigned types that `hostToNetwork` and `networkToHost` are overloaded on.
pub data Width : Type 0 where
  uint16 uint32 uint64 : Width

-- `sizeof`.
abbrev pub size_of : Width → ℕ
size_of uint16 = 2
size_of uint32 = 4
size_of uint64 = 8

abbrev swap : Width → ℕ → ℕ
swap uint16 value = swap16 value
swap uint32 value = swap32 value
swap uint64 value = swap64 value

pub host_to_network : Width → Endianness → ℕ → ℕ
host_to_network width little value = swap width value
host_to_network width big value = value

-- `Endian::networkToHost` calls `hostToNetwork`.
pub network_to_host : Width → Endianness → ℕ → ℕ
unfolding host_to_network
network_to_host width host value = host_to_network width host value

-- The bytes of an unsigned object of `size` bytes, and the value that `size` bytes are read as.
abbrev little_bytes : ℕ → ℕ → List ℕ
little_bytes zero v = []
little_bytes (suc size) v = v % 256 ∷ little_bytes size (v / 256)

abbrev little_value : List ℕ → ℕ
little_value [] = 0
little_value (b ∷ bs) = b + 256 * little_value bs

unfoldable pub object_bytes : Endianness → ℕ → ℕ → List ℕ
object_bytes little size v = little_bytes size v
object_bytes big size v = reverse (little_bytes size v)

unfoldable pub object_value : Endianness → List ℕ → ℕ
object_value little bs = little_value bs
object_value big bs = little_value (reverse bs)

abbrev pub IsByte : ℕ → Type 0
IsByte b = b < 256

-- The network's order: the most significant byte first.
abbrev pub network_bytes : ℕ → ℕ → List ℕ
network_bytes zero v = []
network_bytes (suc size) v = (v / 256 ^ size % 256) ∷ network_bytes size v

abbrev pub network_value : List ℕ → ℕ
network_value [] = 0
network_value (b ∷ bs) = b * 256 ^ length bs + network_value bs
