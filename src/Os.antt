-- ===== src/Os.antt =====
-- The operating system, which the network sources call and the repository does not hold: one
-- function for each system call, over a state `W` of the world that every call may change.
use thread_pool.Base.{
  ℕ, ◌+◌, ◌-◌, ◌<◌, ◌≤◌, ◌≡◌, Bool, false, String, Option, none, some, List, [], ◌++◌, ℤ, pos,
  negsuc, ◌==◌, if◌then◌else◌, length, take, is_negative, is_minus_one,
}

pub record Os (W : Type 0) : Type 0 where
  -- The result of a call as the C function returns it: a descriptor, 0, or -1.
  pub socket : W → ℤ × W
  pub set_reuse_address : ℤ → W → ℤ × W
  pub bind : ℤ → ℕ → ℕ → W → ℤ × W
  pub listen : ℤ → ℤ → W → ℤ × W
  pub accept : ℤ → W → ℤ × W
  pub connect : ℤ → ℕ → ℕ → W → ℤ × W
  pub close : ℤ → W → W
  -- The bound port, or `none` for a negative result.
  pub getsockname : ℤ → W → Option ℕ × W
  pub send : ℤ → List ℕ → W → ℤ × W
  -- At most so many bytes; `none` for a negative result, and the empty list for 0.
  pub recv : ℤ → ℕ → W → Option (List ℕ) × W
  -- `shutdown` with SHUT_WR; no caller reads its result.
  pub shutdown_write : ℤ → W → W
  -- `setsockopt` with SO_LINGER switched on and a time of 0: closing then resets the connection.
  pub set_linger : ℤ → W → ℤ × W
  -- Whether `signal(SIGPIPE, SIG_IGN)` succeeds, and whether `errno` is ECONNRESET.
  pub ignore_sigpipe : W → Bool × W
  pub reset_reported : W → Bool
  -- The IPv4 address of a text; `none` where `inet_pton` does not return 1.
  pub inet_pton : String → Option ℕ
  -- `strerror(errno)`.
  pub last_error : W → String
  pub somaxconn : ℤ
  -- A read of the flag that the SIGINT handler sets (the signal may arrive at any time), and the
  -- wait for a key on standard input.
  pub interrupted : W → Bool × W
  pub wait_enter : W → W

abbrev pub same_descriptor : ℤ → ℤ → Bool
same_descriptor (pos a) (pos b) = a == b
same_descriptor (negsuc a) (negsuc b) = a == b
same_descriptor (pos a) (negsuc b) = false
same_descriptor (negsuc a) (pos b) = false

abbrev pub one_at : ℤ → ℤ → ℕ
one_at fd d = if same_descriptor fd d then 1 else 0

-- Documented: which calls open and close the descriptor `d`. `opened` counts how often it is open.
pub record Descriptors {W : Type 0} (os : Os W) (d : ℤ) (opened : W → ℕ) : Type 0 where
  pub by_socket :
      (w : W)
      → opened (os.socket w).1
        ≡ opened w + (if is_minus_one (os.socket w).0 then 0 else one_at (os.socket w).0 d)
  pub by_accept :
      (fd : ℤ) (w : W)
      → opened (os.accept fd w).1
        ≡ opened w + (if is_negative (os.accept fd w).0 then 0 else one_at (os.accept fd w).0 d)
  -- Closing a descriptor that is not open fails and changes nothing.
  pub by_close : (fd : ℤ) (w : W) → opened (os.close fd w) ≡ opened w - one_at fd d
  pub by_set_reuse_address : (fd : ℤ) (w : W) → opened (os.set_reuse_address fd w).1 ≡ opened w
  pub by_bind : (fd : ℤ) (a p : ℕ) (w : W) → opened (os.bind fd a p w).1 ≡ opened w
  pub by_listen : (fd b : ℤ) (w : W) → opened (os.listen fd b w).1 ≡ opened w
  pub by_connect : (fd : ℤ) (a p : ℕ) (w : W) → opened (os.connect fd a p w).1 ≡ opened w
  pub by_getsockname : (fd : ℤ) (w : W) → opened (os.getsockname fd w).1 ≡ opened w
  pub by_send : (fd : ℤ) (bytes : List ℕ) (w : W) → opened (os.send fd bytes w).1 ≡ opened w
  pub by_recv : (fd : ℤ) (n : ℕ) (w : W) → opened (os.recv fd n w).1 ≡ opened w
  pub by_shutdown_write : (fd : ℤ) (w : W) → opened (os.shutdown_write fd w) ≡ opened w
  pub by_set_linger : (fd : ℤ) (w : W) → opened (os.set_linger fd w).1 ≡ opened w
  pub by_ignore_sigpipe : (w : W) → opened (os.ignore_sigpipe w).1 ≡ opened w
  pub by_interrupted : (w : W) → opened (os.interrupted w).1 ≡ opened w
  pub by_wait_enter : (w : W) → opened (os.wait_enter w) ≡ opened w

-- Documented: `send` takes a front part of the bytes, in order. `written` is the stream of bytes
-- that the descriptor has taken so far.
pub record Sends {W : Type 0} (os : Os W) (fd : ℤ) (written : W → List ℕ) : Type 0 where
  pub takes :
      (bytes : List ℕ) (w : W) (n : ℕ)
      → (os.send fd bytes w).0 ≡ pos n
      → written (os.send fd bytes w).1 ≡ written w ++ take n bytes
  pub fails :
      (bytes : List ℕ) (w : W) (n : ℕ)
      → (os.send fd bytes w).0 ≡ negsuc n
      → written (os.send fd bytes w).1 ≡ written w
  pub kept_by_recv : (n : ℕ) (w : W) → written (os.recv fd n w).1 ≡ written w
  pub kept_by_shutdown_write : (w : W) → written (os.shutdown_write fd w) ≡ written w
  pub kept_by_close : (w : W) → written (os.close fd w) ≡ written w
  pub kept_by_interrupted : (w : W) → written (os.interrupted w).1 ≡ written w
  pub kept_by_wait_enter : (w : W) → written (os.wait_enter w) ≡ written w

-- Documented: `recv` hands over the next bytes of the peer's stream, at most as many as asked for,
-- and reports the end (an empty result) only when nothing is left of it. `incoming` is that rest: all
-- that the peer has sent or will send and that was not read yet.
pub record Receives {W : Type 0} (os : Os W) (fd : ℤ) (incoming : W → List ℕ) : Type 0 where
  pub gives :
      (n : ℕ) (w : W) (bytes : List ℕ)
      → (os.recv fd n w).0 ≡ some bytes
      → (incoming w ≡ bytes ++ incoming (os.recv fd n w).1) × (length bytes ≤ n)
  pub ends : (n : ℕ) (w : W) → 0 < n → (os.recv fd n w).0 ≡ some [] → incoming w ≡ []
  pub fails : (n : ℕ) (w : W) → (os.recv fd n w).0 ≡ none → incoming (os.recv fd n w).1 ≡ incoming w
  pub kept_by_send : (bytes : List ℕ) (w : W) → incoming (os.send fd bytes w).1 ≡ incoming w
  pub kept_by_shutdown_write : (w : W) → incoming (os.shutdown_write fd w) ≡ incoming w
