-- ===== src/App/Together/Mains.antt =====
-- PacketForge_V1/apps/server_main.cpp and client_main.cpp from start to end, each on a machine of its own.
use thread_pool.Base.{
  ℕ, ◌≡◌, ◌∙◌, ap, sym, refl, List, [], ◌++◌, All, append-nil, false, codes, pos, subst,
}
use thread_pool.Endian.{Endianness, IsByte}
use thread_pool.Packet.{new_packet}
use thread_pool.Dispatch.Answers.{dispatch-answers}
use thread_pool.Codec.Wire.{wire}
use thread_pool.Codec.Header.{parse}
use thread_pool.Codec.RoundTrip.{wire-All}
use thread_pool.Os.{Os, Sends, Receives}
use thread_pool.Transport.Reliable.{Reliable}
use thread_pool.Client.Exchange.{not_established}
use thread_pool.App.ServerMain
use thread_pool.App.ServerMain.Promise.{promised}
use thread_pool.App.ServerMain.Listening.{Listens, main-promised}
use thread_pool.App.ClientMain
use thread_pool.App.ClientMain.{request, finishes}
use thread_pool.App.ClientMain.Greeting.{request-Fits}
use thread_pool.App.ClientMain.Connecting.{Connects, main-written, main-finishes}
use thread_pool.App.Together.{greeted, greeted-printed}

request-promised : promised (wire request) ≡ (0, wire greeted)
unfolding promised parse
request-promised = refl

module _ {S C : Type 0} (server_os : Os S) (client_os : Os C) (server_host client_host : Endianness)
    (calm : (s : S) → (server_os.interrupted s).0 ≡ false) where
  -- If no call fails on either side, no signal arrives at the server, nothing was sent before,
  -- the server accepts a client and reads what the client program writes in its whole run, and
  -- the client connects and reads what the server program writes in its whole run, then main of
  -- the server exits with 0, and main of the client prints the server's greeting, finds itself
  -- disconnected when it sends and receives once more, and exits with 0.
  pub main-main :
      (listener accepted connected : ℕ) (taken served : S → List ℕ) (incoming written : C → List ℕ)
      → Listens server_os listener accepted taken served
      → Sends server_os (pos accepted) served
      → Receives server_os (pos accepted) taken
      → Reliable server_os (pos accepted)
      → Connects client_os connected incoming written
      → Sends client_os (pos connected) written
      → Receives client_os (pos connected) incoming
      → Reliable client_os (pos connected)
      → (s : S) (w : C) → served s ≡ []
      → written w ≡ []
      → taken s ≡ written (ClientMain.main client_os client_host w).1
      → incoming w ≡ served (ServerMain.main server_os server_host s).1
      → ((ServerMain.main server_os server_host s).0 ≡ 0)
        × ((ClientMain.main client_os client_host w).0
            ≡ finishes
                (codes "  Payload: Hello from PacketForge Server\n")
                not_established
                not_established)
  main-main listener accepted connected taken served incoming written listens s_sends s_receives
        s_laws connects c_sends c_receives c_laws s w fresh_s fresh_w there back =
      let (f, v) = request-Fits in
      let arrived : taken s ≡ wire request =
        there
        ∙ main-written client_os client_host connected incoming written connects c_sends c_receives
            c_laws w
        ∙ ap (λ x. x ++ wire request) fresh_w in
      let (exits, answered) =
        main-promised server_os server_host listener accepted taken served listens s_sends
          s_receives s_laws calm s
          (subst (λ xs. All IsByte xs) (sym arrived) (wire-All request f)) in
      let owed : promised (taken s) ≡ (0, wire greeted) = ap promised arrived ∙ request-promised in
      let (_, valid, fits, _, _) = dispatch-answers request new_packet f in
      let returned : incoming w ≡ wire greeted ++ [] =
        back
        ∙ answered
        ∙ ap (λ x. served s ++ x.1) owed
        ∙ ap (λ x. x ++ wire greeted) fresh_s
        ∙ sym (append-nil (wire greeted)) in
      (
        exits ∙ ap (λ x. x.0) owed,
        main-finishes client_os client_host connected incoming written connects c_sends c_receives
              c_laws greeted [] w fits valid returned
            ∙ ap (λ x. finishes x not_established not_established) greeted-printed,
      )
