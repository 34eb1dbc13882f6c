-- ===== src/App/Together/ProbeMains.antt =====
-- PacketForge_V1/apps/packetforge_protocol_error_client.cpp and packetforge_dispatch_failure_client.cpp
-- against server_main.cpp, from start to end, each on a machine of its own.
use thread_pool.Os.{Os}
use thread_pool.Transport.Reliable.{Reliable}
use thread_pool.App.ServerMain
use thread_pool.App.Probe
use thread_pool.App.Probe.{Probe}
