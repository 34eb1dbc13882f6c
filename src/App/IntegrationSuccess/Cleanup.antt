-- ===== src/App/IntegrationSuccess/Cleanup.antt =====
-- PacketForge_V1/apps/PacketForge_integration_success_client.cpp: what becomes of the descriptors.
use thread_pool.Base.{ℕ, ◌≤◌, ◌≡◌, ℤ, Bool-cases, inl, inr, arith}
use thread_pool.Error.{ok}
use thread_pool.Endian.{Endianness}
use thread_pool.Packet.{Packet, new_packet, is_valid}
use thread_pool.Os.{Os, Descriptors}
use thread_pool.Client
use thread_pool.Client.{Client, new_client}
use thread_pool.Client.Ownership.{
  held_by, Kept, disconnect_client-Kept, send_client-opened, receive_client-Kept,
  destroy_client-closes, connect_client-Kept,
}
use thread_pool.App.IntegrationSuccess.{request, response_is_right, fail, finish, converse, main}

module _ {W : Type 0} (os : Os W) (host : Endianness) (d : ℤ) (opened : W → ℕ)
    (laws : Descriptors os d opened) where
  fail-Kept :
      (c : Client) (w : W)
      → held_by os host d opened laws c ≤ opened w
      → let (exit_code, c', w') = fail os host c w in Kept os host d opened laws c w c' w'
  unfolding fail
  fail-Kept c w h = disconnect_client-Kept os host d opened laws c w h

  finish-Kept :
      (c : Client) (response : Packet) (w : W)
      → held_by os host d opened laws c ≤ opened w
      → let (exit_code, c', w') = finish os host c response w in
        Kept os host d opened laws c w c' w'
  unfolding finish
  finish-Kept c response w h =
      let (c', w') = Client.disconnect os c w in
      let closed = disconnect_client-Kept os host d opened laws c w h in
      elim (Bool-cases (response_is_right response)) [
        | inr wrong ↦ simp wrong (fail-Kept c w h)
        | inl right ↦ simp right (elim (Bool-cases (Client.is_connected c')) [
          | inr down ↦ simp down closed
          | inl up ↦ simp up (omega (arith, closed, fail-Kept c' w' (omega (arith, closed))))
        ])
      ]

  converse-Kept :
      (c : Client) (w : W)
      → held_by os host d opened laws c ≤ opened w
      → let (exit_code, c', w') = converse os host c w in Kept os host d opened laws c w c' w'
  unfolding converse is_valid
  converse-Kept c w h =
      let (sent, w₁) = Client.send os host c request w in
      let kept = send_client-opened os host d opened laws c request w in
      let (received, response, c₁, w₂) = Client.receive os host c new_packet w₁ in
      let got = receive_client-Kept os host d opened laws c new_packet w₁ (omega (arith, kept)) in
      elim (Bool-cases (ok sent)) [
        | inr bad ↦ simp bad (omega (arith, kept, fail-Kept c w₁ (omega (arith, kept))))
        | inl good ↦ simp good (elim (Bool-cases (ok received)) [
          | inr bad ↦
              simp bad (omega (arith, kept, got, fail-Kept c₁ w₂ (omega (arith, kept, got))))
          | inl fine ↦
              simp fine
                (omega (arith, kept, got, finish-Kept c₁ response w₂ (omega (arith, kept, got))))
        ])
      ]

  pub integration_main-closes : (w : W) → opened (main os host w).1 ≡ opened w
  unfolding main
  integration_main-closes w =
      let (connected, c, w₁) = Client.connect os new_client "127.0.0.1" 9090 w in
      let made = connect_client-Kept os host d opened laws new_client "127.0.0.1" 9090 w in
      let (code₁, c₁, w₂) = fail os host c w₁ in
      let failed = fail-Kept c w₁ (omega (arith, made)) in
      let gone = destroy_client-closes os host d opened laws c₁ w₂ (omega (arith, made, failed)) in
      let (code₂, c₂, w₃) = converse os host c w₁ in
      let talked = converse-Kept c w₁ (omega (arith, made)) in
      elim (Bool-cases (ok connected)) [
        | inr bad ↦ simp bad (omega (arith, made, failed, gone))
        | inl good ↦ simp good (elim (Bool-cases (Client.is_connected c)) [
          | inr down ↦ simp down (omega (arith, made, failed, gone))
          | inl up ↦ simp up (
              omega (
                arith,
                made,
                talked,
                destroy_client-closes os host d opened laws c₂ w₃ (omega (arith, made, talked)),
              ))
        ])
      ]
