-- ===== src/App/Clients.antt =====
-- The client programs of PacketForge_V1/apps: those over the client library or a connection, and those
-- that provoke failures.
use thread_pool.Base.{ℕ, ◌≡◌, ℤ, is_negative, is_minus_one}
use thread_pool.Endian.{Endianness}
use thread_pool.Os.{Os, Descriptors}
use thread_pool.App.ClientMain
use thread_pool.App.ClientMain.Cleanup.{client_main-closes}
use thread_pool.App.IntegrationSuccess
use thread_pool.App.IntegrationSuccess.Cleanup.{integration_main-closes}
use thread_pool.App.RemoteClose
use thread_pool.App.RemoteClose.{shutdown_client}
use thread_pool.App.RemoteClose.Outlives.{remote_close_main-closes, shutdown_client-closes}
use thread_pool.App.Probe
use thread_pool.App.Probe.{Conversions, Probe}
use thread_pool.App.Probe.Cleanup.{probe_main-closes}
use thread_pool.App.MalformedPacket
use thread_pool.App.MalformedPacket.Cleanup.{malformed_main-closes}
use thread_pool.App.SendFailure
use thread_pool.App.SendFailure.{Sender}
use thread_pool.App.SendFailure.Cleanup.{send_failure_main-closes}
use thread_pool.App.Resets.{receive_failure_client, response_send_failure_client, gap035_client}
use thread_pool.App.Resets.Leaves.{
  receive_failure_client-closes, response_send_failure_client-closes, gap035_client-closes,
}

-- Whatever the operating system answers to each call, the client program, the integration client, the
-- remote-close client and the shutdown client each leave every descriptor open exactly as often as they
-- found it.
pub clients_close :
    {W : Type 0} (os : Os W) (host : Endianness) (d : ℤ) (opened : W → ℕ)
    (laws : Descriptors os d opened) (w : W)
    → (opened (ClientMain.main os host w).1 ≡ opened w)
      × (opened (IntegrationSuccess.main os host w).1 ≡ opened w)
      × (opened (RemoteClose.main os host w).1 ≡ opened w)
      × (opened (shutdown_client os w).1 ≡ opened w)
clients_close os host d opened laws w = (
  client_main-closes os host d opened laws w,
  integration_main-closes os host d opened laws w,
  remote_close_main-closes os host d opened laws w,
  shutdown_client-closes os host d opened laws w,
)

-- Whatever the operating system answers to each call, where a call of `socket` that fails returns -1,
-- each of the clients that provoke failures leaves every descriptor open exactly as often as it found
-- it: the protocol-error, dispatch-failure, malformed-packet, transport and packet send-failure,
-- receive-failure, response-send-failure and GAP-035 clients.
pub failure_clients_close :
    {W : Type 0} (os : Os W) (calls : Conversions) (host : Endianness) (d : ℤ) (opened : W → ℕ)
    (laws : Descriptors os d opened)
    → ((w : W) → is_negative (os.socket w).0 ≡ is_minus_one (os.socket w).0)
    → (probe : Probe) (sender : Sender) (w : W)
    → (opened (Probe.main os calls host probe w).1 ≡ opened w)
      × (opened (MalformedPacket.main os host calls w).1 ≡ opened w)
      × (opened (SendFailure.main os host sender w).1 ≡ opened w)
      × (opened (receive_failure_client os w).1 ≡ opened w)
      × (opened (response_send_failure_client os w).1 ≡ opened w)
      × (opened (gap035_client os host w).1 ≡ opened w)
failure_clients_close os calls host d opened laws fails_so probe sender w = (
  probe_main-closes os calls host probe d opened laws fails_so w,
  malformed_main-closes os d opened laws fails_so host calls w,
  send_failure_main-closes os d opened laws fails_so host sender w,
  receive_failure_client-closes os d opened laws w,
  response_send_failure_client-closes os d opened laws fails_so w,
  gap035_client-closes os d opened laws host w,
)
