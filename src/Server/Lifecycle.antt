-- ===== src/Server/Lifecycle.antt =====
-- PacketForge_V1/src/server/server.cpp: when a server runs, and what becomes of its descriptor.
use thread_pool.Base.{
  ℕ, ◌+◌, ◌≤◌, ◌≡◌, ◌⊎◌, true, false, String, ℤ, arith, inl, inr, Bool-cases, ◌||◌,
}
use thread_pool.Error.{Error, ok}
use thread_pool.Os.{Os, Descriptors}
use thread_pool.Socket.{Socket, is_open, close, create, bind, listen}
use thread_pool.Socket.Ownership.{holds, create-Balanced, bind-Balanced, listen-Balanced}
use thread_pool.Server.{Server, start, stop, destroy, assign_server, new_server, give_up, note_port}

-- A server runs exactly while its socket is open, and has a port only while it runs.
pub record IsSound (s : Server) : Type 0 where
  pub running_open : s.running ≡ is_open s.socket
  pub idle_port : (s.running ≡ true) ⊎ (s.port ≡ 0)

module _ {W : Type 0} (os : Os W) where
  create-ok : (s : Socket) (w : W) → (is_open (create os s w).1 ≡ ok (create os s w).0)
  unfolding create
  create-ok s w = ground arith

  bind_keeps_open :
      (s : Socket) (address : String) (port : ℕ) (w : W)
      → is_open s ≡ true
      → (bind os s address port w).1 ≡ s
  unfolding bind
  bind_keeps_open s address port w h = ground arith

  -- Whatever the operating system answers, starting leaves a sound server: it runs with an open
  -- socket after a success, and after a failure it does not run, holds no socket and has no port. A
  -- server that ran already is refused and goes on as it was.
  pub start-IsSound :
      (s : Server) (address : String) (port : ℕ) (w : W)
      → IsSound s
      → let (e, s', w') = start os s address port w in
        IsSound s' × (s'.running ≡ (s.running || ok e)) × ((s.running ≡ false) ⊎ (s' ≡ s))
  unfolding start give_up note_port close
  start-IsSound s address port w v =
      let s₁ = (create os s.socket w).1 in
      let w₁ = (create os s.socket w).2 in
      let w₂ = (bind os s₁ address port w₁).2 in
      let w₃ = (listen os s₁ os.somaxconn w₂).1 in
      ground (arith, create-ok s.socket w, bind_keeps_open s₁ address port w₁)

  -- Stopping closes the socket, and stopping again does nothing.
  pub stop_twice :
      (s : Server) (w : W)
      → let (s', w') = stop os s w in (s' ≡ new_server) × (stop os s' w' ≡ (s', w'))
  unfolding stop
  stop_twice s w = ground arith

  module _ (d : ℤ) (opened : W → ℕ) (laws : Descriptors os d opened) where
    pub stop-Balanced :
        (s : Server) (w : W)
        → holds s.socket d ≤ opened w
        → opened (stop os s w).1 + holds s.socket d ≡ opened w
    unfolding stop
    stop-Balanced s w h = ground (arith, laws.by_close s.socket.descriptor w)

    give_up-Balanced :
        (s : Server) (e : Error) (w : W)
        → holds s.socket d ≤ opened w
        → opened (give_up os s e w).2 + holds s.socket d
          ≡ opened w + holds (give_up os s e w).1.socket d
    unfolding give_up close
    give_up-Balanced s e w h = ground (arith, laws.by_close s.socket.descriptor w)

    note_port-Balanced :
        (s : Server) (w : W)
        → holds s.socket d ≤ opened w
        → opened (note_port os s w).2 + holds s.socket d
          ≡ opened w + holds (note_port os s w).1.socket d
    unfolding note_port give_up close
    note_port-Balanced s w h = ground (
      arith,
      laws.by_getsockname s.socket.descriptor w,
      laws.by_close s.socket.descriptor (os.getsockname s.socket.descriptor w).1,
    )

    -- `start` opens at most the descriptor that the server then holds, also where it fails half way.
    pub start-Balanced :
        (s : Server) (address : String) (port : ℕ) (w : W)
        → holds s.socket d ≤ opened w
        → let (e, s', w') = start os s address port w in
          opened w' + holds s.socket d ≡ opened w + holds s'.socket d
    unfolding start
    start-Balanced s address port w h =
        let (e₁, s₁, w₁) = create os s.socket w in
        let (e₂, s₂, w₂) = bind os s₁ address port w₁ in
        let (e₃, w₃) = listen os s₂ os.somaxconn w₂ in
        let created = create-Balanced os d opened laws s.socket w in
        let bound = bind-Balanced os d opened laws s₁ address port w₁ in
        let listened = listen-Balanced os d opened laws s₂ os.somaxconn w₂ in
        let next = record s { socket = s₂; running = false } in
        let room₂ : holds s₂ d ≤ opened w₂ = omega (arith, created, bound) in
        let room₃ : holds s₂ d ≤ opened w₃ = omega (arith, listened, room₂) in
        let failed₂ = give_up-Balanced next e₂ w₂ room₂ in
        let failed₃ = give_up-Balanced next e₃ w₃ room₃ in
        let noted = note_port-Balanced next w₃ room₃ in
        elim (Bool-cases s.running) [
          | inl on ↦ simp on
          | inr off ↦ simp off (elim (Bool-cases (ok e₁)) [
            | inr bad₁ ↦ simp bad₁ created
            | inl good₁ ↦ simp good₁ (elim (Bool-cases (ok e₂)) [
              | inr bad₂ ↦ simp bad₂ (omega (arith, created, bound, failed₂))
              | inl good₂ ↦ simp good₂ (elim (Bool-cases (ok e₃)) [
                | inr bad₃ ↦ simp bad₃ (omega (arith, created, bound, listened, failed₃))
                | inl good₃ ↦ simp good₃ (omega (arith, created, bound, listened, noted))
              ])
            ])
          ])
        ]

    pub destroy_closes :
        (s : Server) (w : W)
        → holds s.socket d ≤ opened w
        → opened (destroy os s w) + holds s.socket d ≡ opened w
    unfolding destroy
    destroy_closes s w h = ground (arith, laws.by_close s.socket.descriptor w)

    -- Move assignment closes what the target held and nothing else, hands over what the source held,
    -- and leaves the source without a descriptor.
    pub assign_server-Balanced :
        (s other : Server) (w : W)
        → holds s.socket d + holds other.socket d ≤ opened w
        → let (s', left, w') = assign_server os s other w in
          (opened w' + holds s.socket d ≡ opened w)
          × (holds s'.socket d ≡ holds other.socket d)
          × (holds left.socket d ≡ 0)
    unfolding assign_server
    assign_server-Balanced s other w h = ground (arith, laws.by_close s.socket.descriptor w)
