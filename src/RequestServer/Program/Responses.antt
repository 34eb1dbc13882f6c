-- ===== src/RequestServer/Program/Responses.antt =====
-- Version_2/src/Server.cpp: what a client's stream holds while the program runs.
use thread_pool.Base.{
  ℕ, ◌≡◌, sym, ap, ◌∙◌, List, [], ◌∷◌, ◌++◌, append-nil, append_assoc, true, false, if◌then◌else◌,
  ℤ, pos, negsuc, length, take-length, inl, inr, Option-cases, Bool-cases, arith,
}
use thread_pool.Os.{Os, Sends, same_descriptor}
use thread_pool.ThreadPool.{ThreadPool, get_request_number}
use thread_pool.RequestServer.{response, busy}
use thread_pool.RequestServer.Program.{
  Phase, reading, numbering, closing, closed, answering, Session, Main, accepting, enqueuing,
  refusing, dropping, Program, session_turn, main_turn, Move, main_moves, schedules, session_moves,
  completes, Runs, begins, goes_on, note_refusal, note_response, Outgoing, responded, refused,
}

-- Documented: calls on other descriptors, and `accept`, write nothing to the descriptor's stream.
pub record Apart {W : Type 0} (os : Os W) (d : ℤ) (written : W → List ℕ) : Type 0 where
  pub by_send :
      (fd : ℤ) (bytes : List ℕ) (w : W)
      → same_descriptor fd d ≡ false
      → written (os.send fd bytes w).1 ≡ written w
  pub by_recv :
      (fd : ℤ) (n : ℕ) (w : W)
      → same_descriptor fd d ≡ false
      → written (os.recv fd n w).1 ≡ written w
  pub by_close :
      (fd : ℤ) (w : W) → same_descriptor fd d ≡ false → written (os.close fd w) ≡ written w
  pub by_accept : (fd : ℤ) (w : W) → written (os.accept fd w).1 ≡ written w

-- The bytes that are handed to `send`, and those for a descriptor.
abbrev pub bytes_of : Outgoing → List ℕ
bytes_of (responded fd n) = response n
bytes_of (refused fd) = busy

abbrev pub receiver : Outgoing → ℤ
receiver (responded fd n) = fd
receiver (refused fd) = fd

abbrev pub bytes_to : ℤ → List Outgoing → List ℕ
bytes_to d [] = []
bytes_to d (m ∷ ms) = (if same_descriptor (receiver m) d then bytes_of m else []) ++ bytes_to d ms

bytes_to-append :
    (d : ℤ) (ms : List Outgoing) (m : Outgoing)
    → bytes_to d (ms ++ (m ∷ []))
      ≡ bytes_to d ms ++ (if same_descriptor (receiver m) d then bytes_of m else [])
bytes_to-append d [] m = append-nil _
bytes_to-append d (m' ∷ ms) m =
    ap (λ x. (if same_descriptor (receiver m') d then bytes_of m' else []) ++ x)
      (bytes_to-append d ms m)
    ∙ sym (append_assoc _ (bytes_to d ms) _)

same_descriptor-eq : (fd d : ℤ) → same_descriptor fd d ≡ true → fd ≡ d
same_descriptor-eq (pos a) (pos b) e = ap pos (ground (arith, e))
same_descriptor-eq (negsuc a) (negsuc b) e = ap negsuc (ground (arith, e))
same_descriptor-eq (pos a) (negsuc b) e = absurd cc
same_descriptor-eq (negsuc a) (pos b) e = absurd cc

module _ {W : Type 0} (os : Os W) (server_socket d : ℤ) (written : W → List ℕ)
    (sends : Sends os d written) (apart : Apart os d written)
    (takes_all : (bytes : List ℕ) (w : W) → (os.send d bytes w).0 ≡ pos (length bytes)) where
  send-written :
      (m : Outgoing) (w : W)
      → written (os.send (receiver m) (bytes_of m) w).1
        ≡ written w ++ (if same_descriptor (receiver m) d then bytes_of m else [])
  send-written m w = elim (Bool-cases (same_descriptor (receiver m) d)) [
    | inl same ↦
        rw (same, same_descriptor-eq (receiver m) d same)
          (sends.takes (bytes_of m) w (length (bytes_of m)) (takes_all (bytes_of m) w)
            ∙ ap (λ x. written w ++ x) (take-length (bytes_of m)))
    | inr other ↦
        rw other (apart.by_send (receiver m) (bytes_of m) w other ∙ sym (append-nil (written w)))
  ]

  recv-written : (fd : ℤ) (w : W) → written (os.recv fd 1023 w).1 ≡ written w
  recv-written fd w = elim (Bool-cases (same_descriptor fd d)) [
    | inl same ↦ rw (same_descriptor-eq fd d same) (sends.kept_by_recv 1023 w)
    | inr other ↦ apart.by_recv fd 1023 w other
  ]

  close-written : (fd : ℤ) (w : W) → written (os.close fd w) ≡ written w
  close-written fd w = elim (Bool-cases (same_descriptor fd d)) [
    | inl same ↦ rw (same_descriptor-eq fd d same) (sends.kept_by_close w)
    | inr other ↦ apart.by_close fd w other
  ]

  -- The stream was `before`, and `o` has been sent since.
  abbrev Holds : List ℕ → W → List Outgoing → Type 0
  Holds before w o = written w ≡ before ++ bytes_to d o

  send-Holds :
      (before : List ℕ) (w : W) (o : List Outgoing) (m : Outgoing)
      → Holds before w o
      → Holds before (os.send (receiver m) (bytes_of m) w).1 (o ++ (m ∷ []))
  send-Holds before w o m e =
      send-written m w
      ∙ ap (λ x. x ++ (if same_descriptor (receiver m) d then bytes_of m else [])) e
      ∙ append_assoc before (bytes_to d o) _
      ∙ ap (λ x. before ++ x) (sym (bytes_to-append d o m))

  main_turn-Holds :
      (before : List ℕ) (m : Main) (p : ThreadPool Session) (w : W) (o : List Outgoing)
      → Holds before w o
      → Holds before (main_turn os server_socket m p w).2 (note_refusal m o)
  unfolding main_turn
  main_turn-Holds before accepting p w o e = apart.by_accept server_socket w ∙ e
  main_turn-Holds before (enqueuing fd) p w o e = e
  main_turn-Holds before (refusing fd) p w o e = send-Holds before w o (refused fd) e
  main_turn-Holds before (dropping fd) p w o e = close-written fd w ∙ e

  session_turn-Holds :
      (before : List ℕ) (fd : ℤ) (phase : Phase) (p : ThreadPool Session) (w : W)
      (o : List Outgoing)
      → Holds before w o
      → Holds before (session_turn os fd phase p w).2 (note_response fd phase o)
  unfolding session_turn get_request_number
  session_turn-Holds before fd reading p w o e = elim (Option-cases (os.recv fd 1023 w).0) [
    | inl none_given ↦ rw (none_given, session_turn) (recv-written fd w ∙ e)
    | inr ([], given) ↦ rw (given, session_turn) (recv-written fd w ∙ e)
    | inr (b ∷ bs, given) ↦ rw (given, session_turn) (recv-written fd w ∙ e)
  ]
  session_turn-Holds before fd numbering p w o e = e
  session_turn-Holds before fd (answering n) p w o e = send-Holds before w o (responded fd n) e
  session_turn-Holds before fd closing p w o e = close-written fd w ∙ e
  session_turn-Holds before fd closed p w o e = e

  Move-Holds :
      (before : List ℕ) {s s' : Program W}
      → Move os server_socket s s'
      → Holds before s.world s.outgoing
      → Holds before s'.world s'.outgoing
  Move-Holds before (main_moves s) e = main_turn-Holds before s.main s.pool s.world s.outgoing e
  Move-Holds before (schedules h' p' s _) e = e
  Move-Holds before (session_moves front back fd phase s place) e =
      session_turn-Holds before fd phase s.pool s.world s.outgoing e
  Move-Holds before (completes front back fd s place) e = e

  -- If sends on a descriptor take all bytes and other calls do not touch its stream, then in every state that
  -- the program reaches the stream has grown, since the start, by the responses and refusals that were sent
  -- to the descriptor, each whole and in the order of sending, whatever the other threads did meanwhile.
  pub Runs-written :
      (threads : ℕ) (start : W) (s : Program W)
      → Runs os server_socket threads start s
      → written s.world ≡ written start ++ bytes_to d s.outgoing
  Runs-written threads start _ begins = sym (append-nil (written start))
  Runs-written threads start _ (goes_on r m) =
      Move-Holds (written start) m (Runs-written threads start _ r)
