-- ===== src/Endian/Order.antt =====
-- PacketForge_V1/src/common/endian.cpp: the conversions and the bytes of objects in memory.
use thread_pool.Base.{ℕ, ◌+◌, ◌*◌, ◌^◌, ◌<◌, ◌≡◌, refl, [], ◌∷◌, arith}
use thread_pool.Endian.{
  Endianness, little, big, Width, uint16, uint32, uint64, size_of, host_to_network, network_to_host,
  object_bytes, object_value, network_bytes, network_value,
}
use thread_pool.Endian.Swap.{
  swap16_bytes, swap32_bytes, swap64_bytes, swap16-swap16, swap32-swap32, swap64-swap64,
}

-- On every host, an integer of 16, 32 or 64 bits that fits its width is stored by `hostToNetwork`
-- most significant byte first.
pub object_bytes-host_to_network :
    (w : Width) (host : Endianness) (v : ℕ)
    → v < 256 ^ size_of w
    → object_bytes host (size_of w) (host_to_network w host v) ≡ network_bytes (size_of w) v
unfolding object_bytes host_to_network
object_bytes-host_to_network uint16 little v h = rw (swap16_bytes v h) (ground arith)
object_bytes-host_to_network uint16 big v h = ground arith
object_bytes-host_to_network uint32 little v h = rw (swap32_bytes v h) (ground arith)
object_bytes-host_to_network uint32 big v h = ground arith
object_bytes-host_to_network uint64 little v h = rw (swap64_bytes v h) (ground arith)
object_bytes-host_to_network uint64 big v h = ground arith

-- On every host, `networkToHost` undoes `hostToNetwork`.
pub network_to_host-host_to_network :
    (w : Width) (host : Endianness) (v : ℕ)
    → v < 256 ^ size_of w
    → network_to_host w host (host_to_network w host v) ≡ v
unfolding network_to_host
network_to_host-host_to_network uint16 little v h = swap16-swap16 v h
network_to_host-host_to_network uint16 big v h = refl
network_to_host-host_to_network uint32 little v h = swap32-swap32 v h
network_to_host-host_to_network uint32 big v h = refl
network_to_host-host_to_network uint64 little v h = swap64-swap64 v h
network_to_host-host_to_network uint64 big v h = refl

pub network_to_host16-value :
    (host : Endianness) (a b : ℕ)
    → a < 256
    → b < 256
    → network_to_host uint16 host (object_value host (a ∷ b ∷ [])) ≡ network_value (a ∷ b ∷ [])
unfolding network_to_host object_value
network_to_host16-value little a b ha hb =
    rw (swap16_bytes (a + 256 * (b + 0)) (omega arith)) (omega arith)
network_to_host16-value big a b ha hb = omega arith

pub network_to_host32-value :
    (host : Endianness) (a b c d : ℕ)
    → a < 256
    → b < 256
    → c < 256
    → d < 256
    → network_to_host uint32 host (object_value host (a ∷ b ∷ c ∷ d ∷ []))
      ≡ network_value (a ∷ b ∷ c ∷ d ∷ [])
unfolding network_to_host object_value
network_to_host32-value little a b c d ha hb hc hd =
    rw (swap32_bytes (a + 256 * (b + 256 * (c + 256 * (d + 0)))) (omega arith)) (omega arith)
network_to_host32-value big a b c d ha hb hc hd = omega arith
