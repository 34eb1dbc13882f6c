-- ===== src/EchoClient.antt =====
-- Version_2/src/Client.cpp: a client of the thread-pool server. Calls that a signal interrupts are made
-- again, so the two loops run on fuel. Console output is left out, but for the line about the response.
pub mod Answered
pub mod Together
use thread_pool.Base.{
  ℕ, zero, suc, List, [], ◌∷◌, ◌++◌, Bool, true, false, if◌then◌else◌, Option, none, some, codes, ℤ,
  pos, negsuc, is_minus_one, drop,
}
use thread_pool.Os.{Os}

abbrev pub message : List ℕ
message = codes "Hello Server"

-- How `main` ends: with EXIT_FAILURE, or with EXIT_SUCCESS after a line about the response.
pub data Ending : Type 0 where
  gives_up : Ending
  prints : List ℕ → Ending

-- The line, for what `recv` has given.
abbrev pub response_line : List ℕ → List ℕ
response_line [] = codes "Server closed the connection.\n"
response_line (b ∷ bs) = codes "Server Response: " ++ ((b ∷ bs) ++ codes "\n")

module _ {W : Type 0} (os : Os W) (was_interrupted : W → Bool) where
  -- The loop that sends the message, from the byte at `totalSent` on; false where it fails, and `none`
  -- where it has not ended after so many rounds. `was_interrupted` is the test of `errno` for EINTR.
  unfoldable pub send_message : ℕ → ℤ → List ℕ → W → Option (Bool × W)
  send_message zero fd rest w = none
  send_message (suc fuel) fd [] w = some (true, w)
  send_message (suc fuel) fd (b ∷ bs) w = elim (os.send fd (b ∷ bs) w).0 [
    | pos n ↦ send_message fuel fd (drop n (b ∷ bs)) (os.send fd (b ∷ bs) w).1
    | negsuc _ ↦
        (let w' = (os.send fd (b ∷ bs) w).1 in
          let again = send_message fuel fd (b ∷ bs) w' in
          if was_interrupted w' then again else some (false, w'))
  ]

  -- The loop around `recv`: what the call gives that is not interrupted, `none` inside for -1.
  unfoldable pub receive_response : ℕ → ℤ → W → Option (Option (List ℕ) × W)
  receive_response zero fd w = none
  receive_response (suc fuel) fd w = elim (os.recv fd 1024 w).0 [
    | some bytes ↦ some (some bytes, (os.recv fd 1024 w).1)
    | none ↦
        (let w' = (os.recv fd 1024 w).1 in
          let again = receive_response fuel fd w' in
          if was_interrupted w' then again else some (none, w'))
  ]

  -- `main` from the call of `recv` on, with what it gave.
  unfoldable pub finish : ℤ → Option (List ℕ) → W → Ending × W
  finish fd none w = (gives_up, os.close fd w)
  finish fd (some bytes) w = (prints (response_line bytes), os.close fd w)

  after_sending : ℕ → ℤ → Bool → W → Option (Ending × W)
  after_sending fuel fd false w = some (gives_up, os.close fd w)
  after_sending fuel fd true w = elim (receive_response fuel fd w) [
    | none ↦ none
    | some (given, w') ↦ some (finish fd given w')
  ]

  -- `main` on a connected descriptor.
  unfoldable pub talk : ℕ → ℤ → W → Option (Ending × W)
  unfolding after_sending
  talk fuel fd w = elim (send_message fuel fd message w) [
    | none ↦ none
    | some (sent, w') ↦ after_sending fuel fd sent w'
  ]

  attach : ℕ → ℤ → W → Option (Ending × W)
  attach fuel fd w = elim (os.inet_pton "127.0.0.1") [
    | none ↦ some (gives_up, os.close fd w)
    | some ip ↦
        (let (r, w') = os.connect fd ip 8080 w in
          let talked = talk fuel fd w' in
          if is_minus_one r then some (gives_up, os.close fd w') else talked)
  ]

  unfoldable pub main : ℕ → W → Option (Ending × W)
  unfolding attach
  main fuel w =
      let (fd, w') = os.socket w in
      let attached = attach fuel fd w' in if is_minus_one fd then some (gives_up, w') else attached
