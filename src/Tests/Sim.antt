-- ===== src/Tests/Sim.antt =====
-- A small operating system to run the network code on: descriptors are handed out in order, one
-- stream comes in and one goes out, `send` takes three bytes at a time and `recv` gives five.
use thread_pool.Base.{
  ℕ, suc, ◌+◌, ◌-◌, ◌<◌, ◌≤◌, ◌≡◌, refl, sym, ◌∙◌, ap, List, [], ◌∷◌, ◌++◌, true, false, some, ℤ,
  pos, min, length, take, drop, arith, take-append-drop, length-take, take-length, subst,
}
use thread_pool.Transport.Reliable.{Reliable}
use thread_pool.Os.{Os, Descriptors, Sends, Receives, one_at}

pub record Sim : Type 0 where
  pub next : ℕ
  pub descriptors : ℤ → ℕ
  pub inbox : List ℕ
  pub outbox : List ℕ
  -- What `recv` and `accept` have given so far.
  pub pieces : List (List ℕ)
  pub clients : List ℤ

abbrev fresh : Sim → ℤ × Sim
fresh s = (
  pos s.next,
  record s { next = s.next + 1; descriptors = λ d. s.descriptors d + one_at (pos s.next) d },
)

abbrev pub with_piece : List ℕ → List (List ℕ) → List (List ℕ)
with_piece [] pieces = pieces
with_piece (b ∷ bs) pieces = pieces ++ ((b ∷ bs) ∷ [])

abbrev with_client : ℤ × Sim → ℤ × Sim
with_client (fd, s) = (fd, record s { clients = s.clients ++ (fd ∷ []) })

abbrev pub sim : Os Sim
sim = record {
  socket = fresh;
  set_reuse_address = λ fd s. (pos 0, s);
  bind = λ fd ip port s. (pos 0, s);
  listen = λ fd backlog s. (pos 0, s);
  accept = λ fd s. with_client (fresh s);
  connect = λ fd ip port s. (pos 0, s);
  close = λ fd s. record s { descriptors = λ d. s.descriptors d - one_at fd d };
  getsockname = λ fd s. (some 9090, s);
  send = λ fd bytes s. (
    pos (min 3 (length bytes)),
    record s { outbox = s.outbox ++ take (min 3 (length bytes)) bytes },
  );
  recv = λ fd n s. (
    some (take (min 5 n) s.inbox),
    record s {
      inbox = drop (min 5 n) s.inbox;
      pieces = with_piece (take (min 5 n) s.inbox) s.pieces;
    },
  );
  shutdown_write = λ fd s. s;
  set_linger = λ fd s. (pos 0, s);
  ignore_sigpipe = λ s. (true, s);
  reset_reported = λ s. false;
  inet_pton = λ text. some 0x7f000001;
  last_error = λ s. "Success";
  somaxconn = pos 4096;
  interrupted = λ s. (false, s);
  wait_enter = λ s. s;
}

pub sim-Descriptors : (d : ℤ) → Descriptors sim d (λ s. s.descriptors d)
sim-Descriptors d = record {
  by_socket = λ w. refl;
  by_accept = λ fd w. refl;
  by_close = λ fd w. refl;
  by_set_reuse_address = λ fd w. refl;
  by_bind = λ fd a p w. refl;
  by_listen = λ fd b w. refl;
  by_connect = λ fd a p w. refl;
  by_getsockname = λ fd w. refl;
  by_send = λ fd bytes w. refl;
  by_recv = λ fd n w. refl;
  by_shutdown_write = λ fd w. refl;
  by_set_linger = λ fd w. refl;
  by_ignore_sigpipe = λ w. refl;
  by_interrupted = λ w. refl;
  by_wait_enter = λ w. refl;
}

pub sim_takes :
    (bytes : List ℕ) (w : Sim) (n : ℕ)
    → pos (min 3 (length bytes)) ≡ pos n
    → w.outbox ++ take (min 3 (length bytes)) bytes ≡ w.outbox ++ take n bytes
sim_takes bytes w n e = cc

pub all_taken :
    (bytes : List ℕ) (w : Sim) (n : ℕ)
    → pos (length bytes) ≡ pos n
    → w.outbox ++ bytes ≡ w.outbox ++ take n bytes
all_taken bytes w n e =
    let same : length bytes ≡ n = cc in
    ap (λ x. w.outbox ++ x) (sym (take-length bytes) ∙ ap (λ k. take k bytes) same)

pub sim-Sends : (fd : ℤ) → Sends sim fd (λ s. s.outbox)
sim-Sends fd = record {
  takes = sim_takes;
  fails = λ bytes w n e. cc;
  kept_by_recv = λ n w. refl;
  kept_by_shutdown_write = λ w. refl;
  kept_by_close = λ w. refl;
  kept_by_interrupted = λ w. refl;
  kept_by_wait_enter = λ w. refl;
}

pub some_piece :
    (k n : ℕ) (xs bytes : List ℕ)
    → k ≤ n
    → some (take k xs) ≡ some bytes
    → (xs ≡ bytes ++ drop k xs) × (length bytes ≤ n)
some_piece k n xs bytes h e =
    let same : take k xs ≡ bytes = cc in
    (
      sym (take-append-drop k xs) ∙ ap (λ t. t ++ drop k xs) same,
      omega (arith, ap (λ (t : List ℕ). length t) same, length-take k xs),
    )

no_piece : (k : ℕ) (xs : List ℕ) → some (take (suc k) xs) ≡ some [] → xs ≡ []
no_piece k [] e = refl
no_piece k (x ∷ xs) e = cc

pub sim_ends : (n : ℕ) (xs : List ℕ) → 0 < n → some (take (min 5 n) xs) ≡ some [] → xs ≡ []
sim_ends n xs h e =
    let positive : min 5 n ≡ suc (min 5 n - 1) = omega arith in
    no_piece (min 5 n - 1) xs (subst (λ k. some (take k xs) ≡ some []) positive e)

pub sim-Receives : (fd : ℤ) → Receives sim fd (λ s. s.inbox)
sim-Receives fd = record {
  gives = λ n w bytes e. some_piece (min 5 n) n w.inbox bytes (omega arith) e;
  ends = λ n w h e. sim_ends n w.inbox h e;
  fails = λ n w e. cc;
  kept_by_send = λ bytes w. refl;
  kept_by_shutdown_write = λ w. refl;
}

pub sim-Reliable : (fd : ℤ) → Reliable sim fd
sim-Reliable fd = record {
  gives = λ n w e. ground (arith, e);
  takes_some = λ b bs w. (min 3 (length (b ∷ bs)) - 1, ap pos (omega arith));
}
