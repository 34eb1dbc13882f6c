-- ===== src/RequestServer/Program/Order.antt =====
-- Version_2/src/Server.cpp: in which order the clients that `accept` gives are served, and what becomes of
-- each of them.
use mathlib.Core.List.{map, map-append}
use thread_pool.Base.{
  ℕ, ◌≡◌, refl, sym, subst, ap, ◌∙◌, List, [], ◌∷◌, ◌++◌, Bool, true, false, append-nil,
  if◌then◌else◌, append_assoc, ℤ, inl, inr, Option-cases,
}
use thread_pool.Os.{Os}
use thread_pool.ThreadPool.{ThreadPool, enqueue, get_request_number}
use thread_pool.ThreadPool.Steps.{History, note_enqueue}
use thread_pool.ThreadPool.Queue.{Reach-fifo}
use thread_pool.RequestServer.Program.{
  Phase, reading, numbering, closing, closed, answering, Session, new_session, Main, accepting,
  enqueuing, refusing, dropping, Program, session_turn, main_turn, Move, main_moves, schedules,
  session_moves, completes, Runs, begins, goes_on, note_main, note_refusal, note_response, Outgoing,
  responded, refused,
}
use thread_pool.RequestServer.Program.Pool.{pool_view, history_view, Runs-Reach}

-- A list that holds the elements of two others, each in its order.
pub data Interleaves {A : Type 0} : List A → List A → List A → Type 0 where
  nothing : Interleaves [] [] []
  takes_left :
      {xs ys zs : List A} (a : A)
      → Interleaves xs ys zs
      → Interleaves (xs ++ (a ∷ [])) ys (zs ++ (a ∷ []))
  takes_right :
      {xs ys zs : List A} (a : A)
      → Interleaves xs ys zs
      → Interleaves xs (ys ++ (a ∷ [])) (zs ++ (a ∷ []))

-- What the calls of `accept` on the listener have given so far.
pub record Accepts {W : Type 0} (os : Os W) (server_socket : ℤ) (clients : W → List ℤ)
    : Type 0 where
  pub by_accept :
      (w : W)
      → clients (os.accept server_socket w).1 ≡ clients w ++ ((os.accept server_socket w).0 ∷ [])
  pub by_recv : (fd : ℤ) (n : ℕ) (w : W) → clients (os.recv fd n w).1 ≡ clients w
  pub by_send : (fd : ℤ) (bytes : List ℕ) (w : W) → clients (os.send fd bytes w).1 ≡ clients w
  pub by_close : (fd : ℤ) (w : W) → clients (os.close fd w) ≡ clients w

-- The clients that a refusal was sent to.
abbrev pub turned_away : List Outgoing → List ℤ
turned_away [] = []
turned_away (responded fd n ∷ ms) = turned_away ms
turned_away (refused fd ∷ ms) = fd ∷ turned_away ms

-- The client that main's thread holds, until it is in the queue or a refusal was sent to it.
abbrev pub in_hand : Main → List ℤ
in_hand accepting = []
in_hand (enqueuing fd) = fd ∷ []
in_hand (refusing fd) = fd ∷ []
in_hand (dropping fd) = []

turned_away-response :
    (fd : ℤ) (phase : Phase) (o : List Outgoing)
    → turned_away (note_response fd phase o) ≡ turned_away o
turned_away-response fd reading o = refl
turned_away-response fd numbering o = refl
turned_away-response fd closing o = refl
turned_away-response fd closed o = refl
turned_away-response fd (answering n) [] = refl
turned_away-response fd (answering n) (responded d m ∷ o) = turned_away-response fd (answering n) o
turned_away-response fd (answering n) (refused d ∷ o) =
    ap (λ ds. d ∷ ds) (turned_away-response fd (answering n) o)

turned_away-refused :
    (fd : ℤ) (o : List Outgoing) → turned_away (o ++ (refused fd ∷ [])) ≡ turned_away o ++ (fd ∷ [])
turned_away-refused fd [] = refl
turned_away-refused fd (responded d m ∷ o) = turned_away-refused fd o
turned_away-refused fd (refused d ∷ o) = ap (λ ds. d ∷ ds) (turned_away-refused fd o)

abbrev admitted : History Session → List ℤ
admitted h = map (λ (t : Session). t.descriptor) h.accepted

module _ {W : Type 0} (os : Os W) (server_socket : ℤ) (clients : W → List ℤ)
    (laws : Accepts os server_socket clients) (before : List ℤ) where
  -- Of the clients since `before`, main's thread holds the last one or none; each of the others is admitted
  -- or turned away.
  abbrev Fates : Main → W → History Session → List Outgoing → Type 0
  Fates m w h o =
      (earlier : List ℤ) × (clients w ≡ before ++ (earlier ++ in_hand m))
      × Interleaves (admitted h) (turned_away o) earlier

  same_world :
      (m : Main) (w w' : W) (h : History Session) (o : List Outgoing)
      → clients w' ≡ clients w
      → Fates m w h o
      → Fates m w' h o
  same_world m w w' h o same (earlier, seen, each) = (earlier, same ∙ seen, each)

  enqueue-Fates :
      (fd : ℤ) (p : ThreadPool Session) (w : W) (h : History Session) (o : List Outgoing)
      (answer : Bool)
      → Fates (enqueuing fd) w h o
      → Fates
          (if answer then accepting else refusing fd)
          w
          (note_enqueue (new_session fd) answer h)
          o
  enqueue-Fates fd p w h o false v = v
  enqueue-Fates fd p w h o true (earlier, seen, each) = (
    earlier ++ (fd ∷ []),
    seen ∙ ap (λ x. before ++ x) (sym (append-nil (earlier ++ (fd ∷ [])))),
    subst (λ xs. Interleaves xs (turned_away o) (earlier ++ (fd ∷ [])))
        (sym (map-append (λ (t : Session). t.descriptor) h.accepted (new_session fd ∷ [])))
        (takes_left fd each),
  )

  main_turn-Fates :
      (m : Main) (p : ThreadPool Session) (w : W) (h : History Session) (o : List Outgoing)
      → Fates m w h o
      → let (m', p', w') = main_turn os server_socket m p w in
        Fates m' w' (note_main m p h) (note_refusal m o)
  unfolding main_turn
  main_turn-Fates accepting p w h o (earlier, seen, each) = (
    earlier,
    laws.by_accept w
        ∙ ap (λ x. x ++ ((os.accept server_socket w).0 ∷ []))
            (seen ∙ ap (λ x. before ++ x) (append-nil earlier))
        ∙ append_assoc before earlier ((os.accept server_socket w).0 ∷ []),
    each,
  )
  main_turn-Fates (enqueuing fd) p w h o v =
      enqueue-Fates fd p w h o (enqueue (new_session fd) p).0 v
  main_turn-Fates (refusing fd) p w h o (earlier, seen, each) = (
    earlier ++ (fd ∷ []),
    laws.by_send fd _ w ∙ seen ∙ ap (λ x. before ++ x) (sym (append-nil (earlier ++ (fd ∷ [])))),
    subst (λ ys. Interleaves (admitted h) ys (earlier ++ (fd ∷ [])))
        (sym (turned_away-refused fd o)) (takes_right fd each),
  )
  main_turn-Fates (dropping fd) p w h o v =
      same_world accepting w (os.close fd w) h o (laws.by_close fd w) v

  session_turn-clients :
      (fd : ℤ) (phase : Phase) (p : ThreadPool Session) (w : W)
      → clients (session_turn os fd phase p w).2 ≡ clients w
  unfolding session_turn get_request_number
  session_turn-clients fd reading p w = elim (Option-cases (os.recv fd 1023 w).0) [
    | inl e ↦ rw (e, session_turn) (laws.by_recv fd 1023 w)
    | inr ([], e) ↦ rw (e, session_turn) (laws.by_recv fd 1023 w)
    | inr (b ∷ bs, e) ↦ rw (e, session_turn) (laws.by_recv fd 1023 w)
  ]
  session_turn-clients fd numbering p w = refl
  session_turn-clients fd (answering n) p w = laws.by_send fd _ w
  session_turn-clients fd closing p w = laws.by_close fd w
  session_turn-clients fd closed p w = refl

  Move-Fates :
      {s s' : Program W}
      → Move os server_socket s s'
      → Fates s.main s.world s.history s.outgoing
      → Fates s'.main s'.world s'.history s'.outgoing
  Move-Fates (main_moves s) v = main_turn-Fates s.main s.pool s.world s.history s.outgoing v
  Move-Fates (schedules h' p' s (_, accepted, _, _, _)) (earlier, seen, each) = (
    earlier,
    seen,
    subst
        (λ ts.
          Interleaves (map (λ (t : Session). t.descriptor) ts) (turned_away s.outgoing) earlier)
        (sym accepted) each,
  )
  Move-Fates (session_moves front back fd phase s place) (earlier, seen, each) = (
    earlier,
    session_turn-clients fd phase s.pool s.world ∙ seen,
    subst (λ ys. Interleaves (admitted s.history) ys earlier)
        (sym (turned_away-response fd phase s.outgoing)) each,
  )
  Move-Fates (completes front back fd s place) v = v

module _ {W : Type 0} (os : Os W) (server_socket : ℤ) (clients : W → List ℤ)
    (laws : Accepts os server_socket clients) where
  Runs-Fates :
      (threads : ℕ) (start : W) (s : Program W)
      → Runs os server_socket threads start s
      → Fates os server_socket clients laws (clients start) s.main s.world s.history s.outgoing
  Runs-Fates threads start _ begins = ([], sym (append-nil (clients start)), nothing)
  Runs-Fates threads start _ (goes_on r m) =
      Move-Fates os server_socket clients laws (clients start) m (Runs-Fates threads start _ r)

  -- In every state that the thread-pool server's program reaches, whatever its threads do in any
  -- order, the clients that accept has given since the start are, in order, some that were dealt
  -- with and at most one more, which main's thread holds; and those dealt with are an
  -- interleaving of the clients whose sessions the workers have started, in the order of
  -- starting, followed by the clients that wait in the queue, with the clients that a refusal was
  -- sent to, in the order of sending: clients are served in the order in which they came, and
  -- each of them is served, waits or is refused, once.
  pub Runs-Interleaves :
      (threads : ℕ) (start : W) (s : Program W)
      → Runs os server_socket threads start s
      → (earlier : List ℤ) × (clients s.world ≡ clients start ++ (earlier ++ in_hand s.main))
        × Interleaves
            ((history_view s).started ++ (pool_view s).tasks)
            (turned_away s.outgoing)
            earlier
  Runs-Interleaves threads start s r =
      let (earlier, seen, each) = Runs-Fates threads start s r in
      let fifo =
        Reach-fifo threads (history_view s) (pool_view s)
          (Runs-Reach os server_socket threads start s r) in
      (earlier, seen, subst (λ xs. Interleaves xs (turned_away s.outgoing) earlier) fifo each)
