-- ===== src/Buffer.antt =====
-- PacketForge_V1/include/common/buffer.hpp and src/common/buffer.cpp: bytes with a reading position.
-- Sizes are `std::size_t` of 64 bits.
pub mod Queue
use thread_pool.Base.{
  ℕ, ◌+◌, ◌-◌, ◌%◌, ◌^◌, List, [], ◌++◌, Bool, true, false, ltb, if◌then◌else◌, length, take, drop,
}

pub record Buffer : Type 0 where
  pub bytes : List ℕ
  pub read_position : ℕ

-- `Buffer::Buffer`; the capacity changes no behaviour.
abbrev pub new_buffer : Buffer
new_buffer = record { bytes = []; read_position = 0 }

abbrev pub write : List ℕ → Buffer → Buffer
write new b = record b { bytes = b.bytes ++ new }

-- The difference of two sizes wraps around.
unfoldable pub readable_size : Buffer → ℕ
readable_size b = (length b.bytes + 2 ^ 64 - b.read_position) % 2 ^ 64

abbrev pub size : Buffer → ℕ
size b = length b.bytes

-- The destination is an argument with its new value in the result; a refused read leaves it.
unfoldable pub read : ℕ → List ℕ → Buffer → Bool × List ℕ × Buffer
unfolding readable_size
read n destination b = if ltb (readable_size b) n then (false, destination, b) else (
  true,
  take n (drop b.read_position b.bytes) ++ drop n destination,
  record b { read_position = b.read_position + n },
)

abbrev pub clear : Buffer → Buffer
clear b = record { bytes = []; read_position = 0 }
