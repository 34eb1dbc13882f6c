-- ===== src/App/Probe/Loops.antt =====
-- The loops of PacketForge_V1/apps/packetforge_protocol_error_client.cpp against those of
-- src/network/transport.cpp.
use mathlib.Core.WellFounded.{Acc}
use thread_pool.Base.{
  ℕ, zero, suc, ◌-◌, ◌<◌, ◌≡◌, refl, List, [], ◌∷◌, ◌++◌, Option, none, some, ℤ, length, drop,
  Option-cases, result_cases, inl, inr, Shorter, all_shorter, all_below, drop-Shorter, sub-lt-suc,
  true,
}
use thread_pool.Error.{ok}
use thread_pool.Os.{Os, Sends, Receives, Descriptors}
use thread_pool.Transport.Ownership.{send_loop-opened, receive_loop-opened}
use thread_pool.Transport.{send_loop, receive_loop, Received, failed, closed, complete}
use thread_pool.Transport.Reliable.{Reliable, send_loop-ok}
use thread_pool.Transport.Blocks.{send_loop-incoming, send_loop-written, receive_loop-block}
use thread_pool.App.Probe.{send_all, receive_all}

abbrev pub filled : Received → Option (List ℕ)
filled failed = none
filled closed = none
filled (complete bytes) = some bytes

module _ {W : Type 0} (os : Os W) (fd : ℤ) where
  pub send_all-send_loop :
      (rest : List ℕ) (a : Acc Shorter rest) (w : W)
      → send_all os fd rest a w ≡ (ok (send_loop os fd rest a w).0, (send_loop os fd rest a w).1)
  unfolding send_all send_loop
  send_all-send_loop [] a w = refl
  send_all-send_loop (b ∷ bs) (Acc.intro _ smaller) w =
      elim (result_cases (os.send fd (b ∷ bs) w).0) [
        | inl (n, e) ↦ rw (e, send_all, send_loop) refl
        | inr (inl e) ↦ rw (e, send_all, send_loop) refl
        | inr (inr (n, e)) ↦
            rw (e, send_all, send_loop)
              (send_all-send_loop (drop n bs) (smaller (drop n bs) (drop-Shorter n b bs))
                (os.send fd (b ∷ bs) w).1)
      ]

  pub receive_all-receive_loop :
      (m : ℕ) (a : Acc ◌<◌ m) (got : List ℕ) (w : W)
      → receive_all os fd m a got w
        ≡ (filled (receive_loop os fd m a got w).0, (receive_loop os fd m a got w).1)
  unfolding receive_all receive_loop
  receive_all-receive_loop zero a got w = refl
  receive_all-receive_loop (suc m) (Acc.intro _ smaller) got w =
      elim (Option-cases (os.recv fd (suc m) w).0) [
        | inl e ↦ rw (e, receive_all, receive_loop) refl
        | inr ([], e) ↦ rw (e, receive_all, receive_loop) refl
        | inr (b ∷ bs, e) ↦
            rw (e, receive_all, receive_loop)
              (receive_all-receive_loop (m - length bs)
                (smaller (m - length bs) (sub-lt-suc m (length bs))) (got ++ (b ∷ bs))
                (os.recv fd (suc m) w).1)
      ]

  pub send_all-incoming :
      (incoming : W → List ℕ) (reads : Receives os fd incoming) (bytes : List ℕ) (w : W)
      → incoming (send_all os fd bytes (all_shorter bytes) w).1 ≡ incoming w
  send_all-incoming incoming reads bytes w =
      rw (send_all-send_loop bytes (all_shorter bytes) w)
        (send_loop-incoming os fd incoming reads bytes (all_shorter bytes) w)

  module _ (d : ℤ) (opened : W → ℕ) (laws : Descriptors os d opened) where
    pub send_all-opened :
        (bytes : List ℕ) (w : W) → opened (send_all os fd bytes (all_shorter bytes) w).1 ≡ opened w
    send_all-opened bytes w =
        rw (send_all-send_loop bytes (all_shorter bytes) w)
          (send_loop-opened os d opened laws fd bytes (all_shorter bytes) w)

    pub receive_all-opened :
        (n : ℕ) (w : W) → opened (receive_all os fd n (all_below n) [] w).1 ≡ opened w
    receive_all-opened n w =
        rw (receive_all-receive_loop n (all_below n) [] w)
          (receive_loop-opened os d opened laws fd n (all_below n) [] w)

  module _ (laws : Reliable os fd) where
    pub send_all-whole :
        (written : W → List ℕ) (writes : Sends os fd written) (bytes : List ℕ) (w : W)
        → let (sent, w') = send_all os fd bytes (all_shorter bytes) w in
          (sent ≡ true) × (written w' ≡ written w ++ bytes)
    send_all-whole written writes bytes w = rw (send_all-send_loop bytes (all_shorter bytes) w) (
      send_loop-ok os fd laws bytes (all_shorter bytes) w,
      send_loop-written os fd laws written writes bytes (all_shorter bytes) w,
    )

    pub receive_all-block :
        (incoming : W → List ℕ) (reads : Receives os fd incoming) (bytes rest : List ℕ) (w : W)
        → incoming w ≡ bytes ++ rest
        → let (r, w') = receive_all os fd (length bytes) (all_below (length bytes)) [] w in
          (r ≡ some bytes) × (incoming w' ≡ rest)
    receive_all-block incoming reads bytes rest w stream =
        let (whole, behind) =
          receive_loop-block os fd laws incoming reads bytes rest (all_below (length bytes)) w
            stream in
        rw (receive_all-receive_loop (length bytes) (all_below (length bytes)) [] w)
          (rw whole refl, behind)
