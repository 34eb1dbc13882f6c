-- ===== src/App/MalformedPacket/Listener.antt =====
-- PacketForge_V1/apps/packetforge_malformed_packet_client.cpp: the listener's descriptor.
use thread_pool.Base.{
  ℕ, ◌+◌, ◌-◌, ◌≡◌, ◌⊎◌, refl, ℤ, none, some, false, is_negative, is_minus_one, Option-cases,
  Bool-cases, inl, inr, arith, pos,
}
use thread_pool.Os.{Os, Descriptors, one_at}
use thread_pool.App.MalformedPacket.{close_socket, create_listener}

module _ {W : Type 0} (os : Os W) (d : ℤ) (opened : W → ℕ) (laws : Descriptors os d opened)
    (fails_so : (w : W) → is_negative (os.socket w).0 ≡ is_minus_one (os.socket w).0) where
  pub create_listener-opened :
      (w : W)
      → let (listener, w') = create_listener os w in
        ((listener ≡ none) × (opened w' ≡ opened w))
        ⊎ ((fd : ℤ) × (port : ℕ) × (listener ≡ some (fd, port))
            × (is_negative fd ≡ false)
            × (opened w' ≡ opened w + one_at fd d))
  unfolding create_listener close_socket
  create_listener-opened w =
      let (fd, w₁) = os.socket w in
      let w₂ = (os.set_reuse_address fd w₁).1 in
      let w₃ = (os.bind fd 0x7F000001 0 w₂).1 in
      let w₄ = (os.listen fd (pos 1) w₃).1 in
      let w₅ = (os.getsockname fd w₄).1 in
      let made = laws.by_socket w in
      let sure = fails_so w in
      let kept₂ = laws.by_set_reuse_address fd w₁ in
      let kept₃ = laws.by_bind fd 0x7F000001 0 w₂ in
      let kept₄ = laws.by_listen fd (pos 1) w₃ in
      let kept₅ = laws.by_getsockname fd w₄ in
      elim (Bool-cases (is_negative fd)) [
        | inl bad ↦ simp bad (inl (refl, ground (arith, bad, made, sure)))
        | inr good ↦
            let opens : opened w₁ ≡ opened w + one_at fd d = ground (arith, good, made, sure) in
            simp good (elim (Bool-cases (is_negative (os.set_reuse_address fd w₁).0)) [
              | inl bad ↦
                  simp (bad, good) (inl (refl, omega (arith, opens, kept₂, laws.by_close fd w₂)))
              | inr fine₂ ↦
                  simp fine₂ (elim (Bool-cases (is_negative (os.bind fd 0x7F000001 0 w₂).0)) [
                    | inl bad ↦
                        simp (bad, good)
                          (inl (refl, omega (arith, opens, kept₂, kept₃, laws.by_close fd w₃)))
                    | inr fine₃ ↦
                        simp fine₃ (elim (Bool-cases (is_negative (os.listen fd (pos 1) w₃).0)) [
                          | inl bad ↦
                              simp (bad, good)
                                (inl (
                                  refl,
                                  omega (arith, opens, kept₂, kept₃, kept₄, laws.by_close fd w₄),
                                ))
                          | inr fine₄ ↦ simp fine₄ (elim (Option-cases (os.getsockname fd w₄).0) [
                            | inl none_found ↦
                                simp (none_found, good)
                                  (inl (
                                    refl,
                                    omega (
                                      arith,
                                      opens,
                                      kept₂,
                                      kept₃,
                                      kept₄,
                                      kept₅,
                                      laws.by_close fd w₅,
                                    ),
                                  ))
                            | inr (port, found) ↦ simp found (
                                inr (
                                  fd,
                                  port,
                                  refl,
                                  good,
                                  omega (arith, opens, kept₂, kept₃, kept₄, kept₅),
                                ))
                          ])
                        ])
                  ])
            ])
      ]

  pub close_socket-opened :
      (fd : ℤ) (w : W)
      → is_negative fd ≡ false
      → opened (close_socket os fd w) ≡ opened w - one_at fd d
  unfolding close_socket
  close_socket-opened fd w good = simp good (laws.by_close fd w)
