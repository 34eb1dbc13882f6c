-- ===== src/Socket/Ownership.antt =====
-- Which descriptors a socket's operations open and close. `opened` counts how often the
-- descriptor `d` is open, and `holds s d` is 1 where the socket owns it.
use thread_pool.Base.{
  String, Option-cases, inl, inr, ℕ, ◌+◌, ◌≤◌, ◌≡◌, false, ℤ, if◌then◌else◌, arith,
}
use thread_pool.Os.{Os, Descriptors, one_at}
use thread_pool.Socket.{bind, listen, accept, assign_socket, Socket, is_open, close, create}

abbrev pub holds : Socket → ℤ → ℕ
holds s d = if is_open s then one_at s.descriptor d else 0

module _ {W : Type 0} (os : Os W) (d : ℤ) (opened : W → ℕ) (laws : Descriptors os d opened) where
  -- A descriptor stays open exactly as often as sockets own it.
  abbrev pub Balanced : Socket → W → Socket → W → Type 0
  Balanced s w s' w' = opened w' + holds s d ≡ opened w + holds s' d

  pub close-Balanced :
      (s : Socket) (w : W)
      → holds s d ≤ opened w
      → let (s', w') = close os s w in Balanced s w s' w' × (is_open s' ≡ false)
  unfolding close
  close-Balanced s w h = ground (arith, laws.by_close s.descriptor w)

  pub create-Balanced : (s : Socket) (w : W) → let (e, s', w') = create os s w in Balanced s w s' w'
  unfolding create
  create-Balanced s w = ground (arith, laws.by_socket w)

  pub bind-Balanced :
      (s : Socket) (address : String) (port : ℕ) (w : W)
      → let (e, s', w') = bind os s address port w in Balanced s w s' w'
  unfolding bind
  bind-Balanced s address port w =
      let fresh = (os.socket w).0 in
      let w₀ = (os.socket w).1 in
      elim (Option-cases (os.inet_pton address)) [
        | inl e ↦ ground (
          arith,
          e,
          laws.by_socket w,
          laws.by_set_reuse_address s.descriptor w,
          laws.by_set_reuse_address fresh w₀,
        )
        | inr (ip, e) ↦ ground (
          arith,
          e,
          laws.by_socket w,
          laws.by_set_reuse_address s.descriptor w,
          laws.by_set_reuse_address fresh w₀,
          laws.by_bind s.descriptor ip port (os.set_reuse_address s.descriptor w).1,
          laws.by_bind fresh ip port (os.set_reuse_address fresh w₀).1,
        )
      ]

  pub listen-Balanced : (s : Socket) (b : ℤ) (w : W) → opened (listen os s b w).1 ≡ opened w
  unfolding listen
  listen-Balanced s b w = ground (arith, laws.by_listen s.descriptor b w)

  pub accept-Balanced :
      (s client : Socket) (w : W)
      → holds client d ≤ opened w
      → let (e, client', w') = accept os s client w in Balanced client w client' w'
  unfolding accept
  accept-Balanced s client w h = ground (
    arith,
    laws.by_accept s.descriptor w,
    laws.by_close client.descriptor (os.accept s.descriptor w).1,
  )

  pub assign_socket-Balanced :
      (s other : Socket) (w : W)
      → holds s d + holds other d ≤ opened w
      → let (s', other', w') = assign_socket os s other w in
        opened w' + holds s d + holds other d ≡ opened w + holds s' d + holds other' d
  unfolding assign_socket
  assign_socket-Balanced s other w h = ground (arith, laws.by_close s.descriptor w)
