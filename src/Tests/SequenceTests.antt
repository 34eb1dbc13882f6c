-- ===== src/Tests/SequenceTests.antt =====
-- PacketForge_V1/src/protocol/packet_io.cpp: two packets, one behind the other, on the simulated system.
use thread_pool.Base.{◌≡◌, refl, [], ◌∷◌, ◌++◌, true, pos, List, take, drop, take-append-drop}
use thread_pool.Endian.{little, big}
use thread_pool.Packet.{Packet}
use thread_pool.Codec.RoundTrip.{encoded}
use thread_pool.Transport.{Transport}
use thread_pool.PacketIo.Sequence.{
  Sendable, send_packets, receive_packets, packets_in_order, packets_arrive,
}
use thread_pool.Tests.Sim.{Sim, sim, sim-Sends, sim-Receives, sim-Reliable}
use thread_pool.Tests.CodecTests.{hello, hello_bytes, hello-Fits, hello_encoded}

abbrev connected : Transport
connected = record {
  connection = record { socket = record { descriptor = pos 4 }; connected = true };
}

abbrev silent : Sim
silent = record {
  next = 5;
  descriptors = λ d. 1;
  inbox = [];
  outbox = [];
  pieces = [];
  clients = [];
}

abbrev two_hellos : List Packet
two_hellos = hello ∷ hello ∷ []

hello-Sendable : Sendable hello
hello-Sendable = (hello-Fits, (encoded big hello hello_bytes hello-Fits hello_encoded).0)

abbrev all_sent : Sim
all_sent = record silent { inbox = (send_packets sim big connected two_hellos silent).1.outbox }

-- The last bytes have been lost.
abbrev cut : Sim
cut = record all_sent { inbox = take 20 all_sent.inbox }

packets_in_order_example :
    (more : List Packet) × (receive_packets sim little 5 connected cut ++ more ≡ two_hellos)
packets_in_order_example =
    packets_in_order sim sim big little connected connected (λ s. s.outbox) (λ s. s.inbox)
      (sim-Sends (pos 4)) (sim-Receives (pos 4)) refl refl two_hellos 5 silent cut
      (drop 20 all_sent.inbox) (hello-Sendable, (hello-Sendable, tt)) refl
      (take-append-drop 20 all_sent.inbox)

packets_arrive_example : receive_packets sim little 2 connected all_sent ≡ two_hellos
packets_arrive_example =
    packets_arrive sim sim big little connected connected (λ s. s.outbox) (λ s. s.inbox)
      (sim-Sends (pos 4)) (sim-Receives (pos 4)) refl refl two_hellos silent all_sent
      (sim-Reliable (pos 4)) (sim-Reliable (pos 4)) (hello-Sendable, (hello-Sendable, tt)) refl refl
