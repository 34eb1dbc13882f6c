-- ===== src/App/ClientMain/Cleanup.antt =====
-- PacketForge_V1/apps/client_main.cpp and src/client/client.cpp: what becomes of the descriptors.
use thread_pool.Base.{ℕ, ◌≤◌, ◌≡◌, ℤ, Bool-cases, inl, inr, arith}
use thread_pool.Error.{ok}
use thread_pool.Endian.{Endianness}
use thread_pool.Packet.{Packet, new_packet, is_valid}
use thread_pool.Os.{Os, Descriptors}
use thread_pool.Client
use thread_pool.Client.Ownership.{
  held_by, Kept, disconnect_client-Kept, send_client-opened, receive_client-Kept,
  destroy_client-closes, connect_client-Kept,
}
use thread_pool.Client.{Client, new_client}
use thread_pool.App.ClientMain.{main, request, talk, wind_up}

module _ {W : Type 0} (os : Os W) (host : Endianness) (d : ℤ) (opened : W → ℕ)
    (laws : Descriptors os d opened) where
  wind_up-Kept :
      (c : Client) (response : Packet) (w : W)
      → held_by os host d opened laws c ≤ opened w
      → let (ending, c', w') = wind_up os host c response w in Kept os host d opened laws c w c' w'
  unfolding wind_up
  wind_up-Kept c response w h =
      let w₀ = os.wait_enter w in
      let kept₀ = laws.by_wait_enter w in
      let (c₁, w₁) = Client.disconnect os c w₀ in
      let first = disconnect_client-Kept os host d opened laws c w₀ (omega (arith, kept₀)) in
      let w₂ = (Client.send os host c₁ request w₁).1 in
      let kept₁ = send_client-opened os host d opened laws c₁ request w₁ in
      let (received, packet, c₂, w₃) = Client.receive os host c₁ new_packet w₂ in
      let second =
        receive_client-Kept os host d opened laws c₁ new_packet w₂
          (omega (arith, kept₀, first, kept₁)) in
      let third =
        disconnect_client-Kept os host d opened laws c₂ w₃
          (omega (arith, kept₀, first, kept₁, second)) in
      omega (arith, kept₀, first, kept₁, second, third)

  talk-Kept :
      (c : Client) (w : W)
      → held_by os host d opened laws c ≤ opened w
      → let (ending, c', w') = talk os host c w in Kept os host d opened laws c w c' w'
  unfolding talk is_valid
  talk-Kept c w h =
      let (sent, w₁) = Client.send os host c request w in
      let kept = send_client-opened os host d opened laws c request w in
      let (received, response, c₁, w₂) = Client.receive os host c new_packet w₁ in
      let got = receive_client-Kept os host d opened laws c new_packet w₁ (omega (arith, kept)) in
      elim (Bool-cases (ok sent)) [
        | inr bad ↦ simp bad (
            omega (
              arith,
              kept,
              disconnect_client-Kept os host d opened laws c w₁ (omega (arith, kept)),
            ))
        | inl good ↦ simp good (elim (Bool-cases (ok received)) [
          | inr bad ↦ simp bad (
              omega (
                arith,
                kept,
                got,
                disconnect_client-Kept os host d opened laws c₁ w₂ (omega (arith, kept, got)),
              ))
          | inl fine ↦
              simp fine
                (omega (arith, kept, got, wind_up-Kept c₁ response w₂ (omega (arith, kept, got))))
        ])
      ]

  -- Whatever the operating system answers to each call, the client program leaves every descriptor open
  -- exactly as often as it found it when it returns.
  pub client_main-closes : (w : W) → opened (main os host w).1 ≡ opened w
  unfolding main
  client_main-closes w =
      let (connected, c, w₁) = Client.connect os new_client "127.0.0.1" 9090 w in
      let made = connect_client-Kept os host d opened laws new_client "127.0.0.1" 9090 w in
      let (ending, c', w₂) = talk os host c w₁ in
      elim (Bool-cases (ok connected)) [
        | inr bad ↦ simp bad (
            omega
              (arith, made, destroy_client-closes os host d opened laws c w₁ (omega (arith, made))))
        | inl good ↦
            let talked = talk-Kept c w₁ (omega (arith, made)) in
            simp good (
              omega (
                arith,
                made,
                talked,
                destroy_client-closes os host d opened laws c' w₂ (omega (arith, made, talked)),
              ))
      ]
