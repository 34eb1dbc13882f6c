-- ===== src/Tests/Whole.antt =====
-- A second small operating system: `send` takes all bytes, and the stream of one descriptor is recorded.
use thread_pool.Base.{
  ℕ, ℤ, List, [], ◌++◌, ◌≡◌, refl, false, if◌then◌else◌, append-nil, length, pos,
}
use thread_pool.Os.{Os, Sends, Descriptors, same_descriptor}
use thread_pool.RequestServer.Program.Responses.{Apart}
use thread_pool.Tests.Sim.{Sim, sim, all_taken}

-- The simulated system, where `send` takes all bytes and one stream, of descriptor 5, is recorded.
abbrev pub whole : Os Sim
whole = record sim {
  send = λ fd bytes s. (
    pos (length bytes),
    record s { outbox = s.outbox ++ (if same_descriptor fd (pos 5) then bytes else []) },
  );
}

pub whole-Descriptors : Descriptors whole (pos 5) (λ s. s.descriptors (pos 5))
whole-Descriptors = record {
  by_socket = λ w. refl;
  by_accept = λ fd w. refl;
  by_close = λ fd w. refl;
  by_set_reuse_address = λ fd w. refl;
  by_bind = λ fd a p w. refl;
  by_listen = λ fd b w. refl;
  by_connect = λ fd a p w. refl;
  by_getsockname = λ fd w. refl;
  by_send = λ fd bytes w. refl;
  by_recv = λ fd n w. refl;
  by_shutdown_write = λ fd w. refl;
  by_set_linger = λ fd w. refl;
  by_ignore_sigpipe = λ w. refl;
  by_interrupted = λ w. refl;
  by_wait_enter = λ w. refl;
}

pub whole-Sends : Sends whole (pos 5) (λ s. s.outbox)
whole-Sends = record {
  takes = all_taken;
  fails = λ bytes w n e. cc;
  kept_by_recv = λ n w. refl;
  kept_by_shutdown_write = λ w. refl;
  kept_by_close = λ w. refl;
  kept_by_interrupted = λ w. refl;
  kept_by_wait_enter = λ w. refl;
}

whole_apart :
    (fd : ℤ) (bytes : List ℕ) (w : Sim)
    → same_descriptor fd (pos 5) ≡ false
    → w.outbox ++ (if same_descriptor fd (pos 5) then bytes else []) ≡ w.outbox
whole_apart fd bytes w other = rw other (append-nil w.outbox)

pub whole-Apart : Apart whole (pos 5) (λ s. s.outbox)
whole-Apart = record {
  by_send = λ fd bytes w e. whole_apart fd bytes w e;
  by_recv = λ fd n w e. refl;
  by_close = λ fd w e. refl;
  by_accept = λ fd w. refl;
}
