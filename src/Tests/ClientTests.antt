-- ===== src/Tests/ClientTests.antt =====
-- The client programs of PacketForge_V1/apps on the simulated system.
use thread_pool.Base.{◌≡◌, ◌↔◌, refl, [], ◌∷◌, ◌++◌, pos, if◌then◌else◌, true}
use thread_pool.Endian.{little}
use thread_pool.Error.{error, connection_closed}
use thread_pool.Packet.{is_valid}
use thread_pool.Codec.Wire.{wire}
use thread_pool.Client.Exchange.{not_established}
use thread_pool.App.ClientMain
use thread_pool.App.IntegrationSuccess
use thread_pool.App.IntegrationSuccess.Passes.{greeting_packet, converse_iff}
use thread_pool.App.RemoteClose
use thread_pool.App.RemoteClose.{outlives, shutdown_client}
use thread_pool.App.RemoteClose.Outlives.{converse-outlives}
use thread_pool.App.MalformedPacket
use thread_pool.App.MalformedPacket.{test_packet_io_propagation}
use thread_pool.App.MalformedPacket.Rejects.{header_of, main-test_packet_io_propagation}
use thread_pool.App.Clients.{clients_close, failure_clients_close}
use thread_pool.App.Probe
use thread_pool.App.Probe.{protocol_error_probe}
use thread_pool.App.SendFailure
use thread_pool.App.SendFailure.{by_packet_io}
use thread_pool.App.Resets.{receive_failure_client, response_send_failure_client, gap035_client}
use thread_pool.Tests.CodecTests.{hello, hello-Fits}
use thread_pool.Tests.ProgramTests.{client, machine, swapping, swapping-NetworkOrder}
use thread_pool.Tests.Sim.{sim, sim-Descriptors, sim-Sends, sim-Receives, sim-Reliable}

hello_valid : is_valid hello ≡ true
unfolding is_valid
hello_valid = refl

clients_close_example :
    ((ClientMain.main sim little (machine [])).1.descriptors (pos 5) ≡ 0)
    × ((IntegrationSuccess.main sim little (machine [])).1.descriptors (pos 5) ≡ 0)
    × ((RemoteClose.main sim little (machine [])).1.descriptors (pos 5) ≡ 0)
    × ((shutdown_client sim (machine [])).1.descriptors (pos 5) ≡ 0)
clients_close_example =
    clients_close sim little (pos 5) (λ s. s.descriptors (pos 5)) (sim-Descriptors (pos 5))
      (machine [])

-- Another packet than the greeting.
converse_iff_example :
    ((IntegrationSuccess.converse sim little client (machine (wire hello ++ (9 ∷ [])))).0 ≡ 0)
    ↔ (hello ≡ greeting_packet)
converse_iff_example =
    converse_iff sim little client (λ s. s.outbox) (λ s. s.inbox) (sim-Sends (pos 4))
      (sim-Receives (pos 4)) (sim-Reliable (pos 4)) refl hello (9 ∷ [])
      (machine (wire hello ++ (9 ∷ []))) hello-Fits hello_valid refl

converse-outlives_example :
    (RemoteClose.converse sim little client (machine (wire hello ++ []))).0
    ≡ outlives (error connection_closed "Connection closed by peer") not_established not_established
converse-outlives_example =
    converse-outlives sim little client (λ s. s.outbox) (λ s. s.inbox) (sim-Sends (pos 4))
      (sim-Receives (pos 4)) (sim-Reliable (pos 4)) refl hello (machine (wire hello ++ []))
      hello-Fits hello_valid refl

main-test_packet_io_propagation_example :
    let (passed, w') =
      test_packet_io_propagation sim little (header_of 0xDEADBEEF 0) (machine []) in
    MalformedPacket.main sim little swapping (machine []) ≡ ((if passed then 0 else 1), w')
main-test_packet_io_propagation_example =
    main-test_packet_io_propagation little swapping swapping-NetworkOrder sim (machine [])

failure_clients_close_example :
    ((Probe.main sim swapping little protocol_error_probe (machine [])).1.descriptors (pos 5) ≡ 0)
    × ((MalformedPacket.main sim little swapping (machine [])).1.descriptors (pos 5) ≡ 0)
    × ((SendFailure.main sim little by_packet_io (machine [])).1.descriptors (pos 5) ≡ 0)
    × ((receive_failure_client sim (machine [])).1.descriptors (pos 5) ≡ 0)
    × ((response_send_failure_client sim (machine [])).1.descriptors (pos 5) ≡ 0)
    × ((gap035_client sim little (machine [])).1.descriptors (pos 5) ≡ 0)
failure_clients_close_example =
    failure_clients_close sim swapping little (pos 5) (λ s. s.descriptors (pos 5))
      (sim-Descriptors (pos 5)) (λ w. refl) protocol_error_probe by_packet_io (machine [])
