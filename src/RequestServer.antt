-- ===== src/RequestServer.antt =====
-- Version_2/src/Server.cpp (and Version1/src/Server.cpp, the same text): the program around the thread
-- pool. A task of the pool is made from the descriptor that `processClient` is called on. Console output
-- is left out.
pub mod Pieces
pub mod Session
pub mod Program
use thread_pool.Base.{
  ℕ, zero, suc, ◌+◌, ◌-◌, ◌^◌, List, [], ◌∷◌, ◌++◌, Bool, true, false, ltb, if◌then◌else◌, Option,
  none, some, ℤ, pos, negsuc, codes,
}
use thread_pool.Decimal.{int_to_string}
use thread_pool.Os.{Os}
use thread_pool.ThreadPool.{ThreadPool, new_pool, enqueue, get_request_number}

-- An `int` from its bit pattern.
abbrev pub to_int : ℕ → ℤ
to_int n = if ltb n (2 ^ 31) then pos n else negsuc (2 ^ 32 - 1 - n)

-- `response`.
abbrev pub response : ℕ → List ℕ
response request_id =
    codes "Request #" ++ (int_to_string (to_int request_id) ++ codes " processed successfully")

abbrev pub busy : List ℕ
busy = codes "Server busy. Try later"

module _ {W : Type 0} (os : Os W) where
  module _ {T : Type 0} (others : W → ThreadPool T → ThreadPool T) where
    -- `processClient`, on fuel: `none` when the loop has not ended after so many rounds. When `recv` comes
    -- back, `others` is what the other threads have made of the pool meanwhile.
    unfoldable pub process_client : ℕ → ℤ → ThreadPool T → W → Option (ThreadPool T × W)
    process_client zero client_socket pool w = none
    process_client (suc fuel) client_socket pool w = elim (os.recv client_socket 1023 w).0 [
      | none ↦
          (let w₁ = (os.recv client_socket 1023 w).1 in
            some (others w₁ pool, os.close client_socket w₁))
      | some [] ↦
          (let w₁ = (os.recv client_socket 1023 w).1 in
            some (others w₁ pool, os.close client_socket w₁))
      | some (b ∷ bs) ↦
          (let w₁ = (os.recv client_socket 1023 w).1 in
            let (request_id, pool') = get_request_number (others w₁ pool) in
            process_client fuel client_socket pool'
              (os.send client_socket (response request_id) w₁).1)
    ]

  -- What `main` does before its loop; no result is looked at.
  unfoldable pub start_up : W → ℤ × ThreadPool ℤ × W
  start_up w =
      let (server_socket, w₁) = os.socket w in
      let (bound, w₂) = os.bind server_socket 0 8080 w₁ in
      let (listening, w₃) = os.listen server_socket (pos 10) w₂ in (server_socket, new_pool 4, w₃)

  -- One round of `main`'s loop, which never ends. The pool is as the other threads have left it, and
  -- `task` is the lambda that is put in the queue.
  unfoldable pub accept_client :
      {T : Type 0} → (ℤ → T) → ℤ → ThreadPool T → W → Bool × ThreadPool T × W
  accept_client task server_socket pool w =
      let (client_socket, w₁) = os.accept server_socket w in
      let (accepted, pool') = enqueue (task client_socket) pool in
      if accepted
      then (true, pool', w₁)
      else (let (sent, w₂) = os.send client_socket busy w₁ in
          (false, pool', os.close client_socket w₂))
