-- ===== src/Tests/ProgramTests.antt =====
-- The programs of PacketForge_V1/apps on the simulated system.
use thread_pool.Base.{ℕ, ◌≡◌, sym, refl, List, [], ◌∷◌, ◌++◌, append-nil, pos, true}
use thread_pool.Endian.{little, uint16, uint32, host_to_network, network_to_host}
use thread_pool.Endian.Order.{object_bytes-host_to_network}
use thread_pool.Codec.Wire.{wire, encode-wire}
use thread_pool.Codec.Header.{read_four, read_two}
use thread_pool.Transport.{Transport}
use thread_pool.Client
use thread_pool.Client.{Client}
use thread_pool.App.ServerMain.{serve}
use thread_pool.App.ServerMain.Success.{serve-succeeds}
use thread_pool.App.ClientMain.{request}
use thread_pool.App.ClientMain.Greeting.{request-Fits}
use thread_pool.Client.Exchange.{send-wire}
use thread_pool.App.Together.{greeted}
use thread_pool.App.Probe.{Conversions, protocol_error_probe, converse}
use thread_pool.App.Probe.Verdict.{NetworkOrder, probe_packet, expected_header}
use thread_pool.App.ServerMain
use thread_pool.App.Probe
use thread_pool.Tests.Sim.{Sim, sim, sim-Sends, sim-Receives, sim-Reliable}

abbrev connected : Transport
connected = record {
  connection = record { socket = record { descriptor = pos 4 }; connected = true };
}

abbrev pub client : Client
client = record { transport = connected }

-- A machine with this many bytes on their way to it.
abbrev pub machine : List ℕ → Sim
machine bytes = record {
  next = 5;
  descriptors = λ d. 0;
  inbox = bytes;
  outbox = [];
  pieces = [];
  clients = [];
}

abbrev bad_header : List ℕ
bad_header = wire (probe_packet protocol_error_probe)

request_sent :
    (Client.send sim little client request (machine (wire greeted))).1.outbox ≡ wire request
request_sent =
    (send-wire sim little client (λ s. s.outbox) (λ s. s.inbox) (sim-Sends (pos 4))
      (sim-Receives (pos 4)) (sim-Reliable (pos 4)) refl request (machine (wire greeted))
      request-Fits.0 request-Fits.1).1

greeting_sent : (serve sim little connected (machine (wire request))).2.outbox ≡ wire greeted
greeting_sent =
    (serve-succeeds sim little (λ w. refl) (λ s. s.outbox) little connected request (wire request)
      [] (machine (wire request)) (λ s. s.inbox) (sim-Sends (pos 4)) (sim-Receives (pos 4))
      (sim-Reliable (pos 4)) refl request-Fits.0
      (encode-wire little request request-Fits.0 request-Fits.1)
      (sym (append-nil (wire request)))).1

-- The conversions on a little-endian host.
abbrev pub swapping : Conversions
swapping = record {
  htons = λ v. host_to_network uint16 little v;
  htonl = λ v. host_to_network uint32 little v;
  ntohs = λ v. network_to_host uint16 little v;
  ntohl = λ v. network_to_host uint32 little v;
}

pub swapping-NetworkOrder : NetworkOrder swapping little
swapping-NetworkOrder = record {
  stores_short = λ v h. object_bytes-host_to_network uint16 little v h;
  stores_long = λ v h. object_bytes-host_to_network uint32 little v h;
  reads_short = λ bytes e h. read_two little bytes e h;
  reads_long = λ bytes e h. read_four little bytes e h;
}

abbrev expected : List ℕ
expected = expected_header protocol_error_probe ++ (3 ∷ [])
