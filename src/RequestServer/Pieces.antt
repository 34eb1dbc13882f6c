-- ===== src/RequestServer/Pieces.antt =====
-- Version_2/src/Server.cpp: a session against the pieces in which the client's bytes arrive.
use thread_pool.Base.{
  ℕ, zero, suc, ◌+◌, ◌<◌, ◌≤◌, ◌^◌, ◌%◌, ◌≡◌, refl, sym, ap, ◌∙◌, List, [], ◌∷◌, ◌++◌, All,
  append-nil, append_assoc, length, ◌≢◌, ◌*◌, take-length, length-append, none, some, ℤ, pos,
  Option-cases, inl, inr, arith,
}
use thread_pool.Os.{Os, Receives, Sends}
use thread_pool.ThreadPool.{ThreadPool, get_request_number}
use thread_pool.RequestServer.{process_client, response}

-- The responses to the next `rounds` requests, when `counter` have been numbered.
abbrev pub replies : ℕ → ℕ → List ℕ
replies zero counter = []
replies (suc rounds) counter =
    let request_id = (counter + 1) % 2 ^ 32 in response request_id ++ replies rounds request_id

-- What a call of `recv` with a buffer of 1023 bytes may give.
abbrev pub IsPiece : List ℕ → Type 0
IsPiece piece = (0 < length piece) × (length piece ≤ 1023)

abbrev pub concat : List (List ℕ) → List ℕ
concat [] = []
concat (piece ∷ pieces) = piece ++ concat pieces

-- There are no more pieces than bytes, and no fewer than the buffer's size makes of them.
pub length-concat :
    (pieces : List (List ℕ))
    → All IsPiece pieces
    → (length pieces ≤ length (concat pieces)) × (length (concat pieces) ≤ 1023 * length pieces)
length-concat [] h = omega arith
length-concat (piece ∷ pieces) ((some_byte, fits), h) =
    let (most, least) = length-concat pieces h in
    omega (arith, length-append piece (concat pieces), some_byte, fits, most, least)

-- Something that is seen of the world and that a call of `recv` with a piece adds the piece to, while
-- no other call of a session changes it.
pub record Notes {W A : Type 0} (os : Os W) (fd : ℤ) (seen : W → A) (note : A → List ℕ → A)
    : Type 0 where
  pub by_piece :
      (b : ℕ) (bs : List ℕ) (w : W)
      → (os.recv fd 1023 w).0 ≡ some (b ∷ bs)
      → seen (os.recv fd 1023 w).1 ≡ note (seen w) (b ∷ bs)
  pub by_end : (w : W) → (os.recv fd 1023 w).0 ≡ some [] → seen (os.recv fd 1023 w).1 ≡ seen w
  pub by_send : (bytes : List ℕ) (w : W) → seen (os.send fd bytes w).1 ≡ seen w
  pub by_close : (w : W) → seen (os.close fd w) ≡ seen w

abbrev pub note_all : {A : Type 0} → (A → List ℕ → A) → A → List (List ℕ) → A
note_all note a [] = a
note_all note a (piece ∷ pieces) = note_all note (note a piece) pieces

module _ {W A : Type 0} (os : Os W) (fd : ℤ) (written incoming : W → List ℕ)
    (writes : Sends os fd written) (reads : Receives os fd incoming)
    (gives : (w : W) → (os.recv fd 1023 w).0 ≢ none)
    (takes_all : (bytes : List ℕ) (w : W) → (os.send fd bytes w).0 ≡ pos (length bytes))
    (others : W → ThreadPool ℤ → ThreadPool ℤ)
    (alone : (w : W) (pool : ThreadPool ℤ) → others w pool ≡ pool) (seen : W → A)
    (note : A → List ℕ → A) (notes : Notes os fd seen note) where
  send-response :
      (request_id : ℕ) (w : W)
      → written (os.send fd (response request_id) w).1 ≡ written w ++ response request_id
  send-response request_id w =
      writes.takes (response request_id) w (length (response request_id))
        (takes_all (response request_id) w)
      ∙ ap (λ x. written w ++ x) (take-length (response request_id))

  pub process_client-pieces :
      (fuel : ℕ) (pool : ThreadPool ℤ) (w : W)
      → length (incoming w) < fuel
      → pool.request_counter < 2 ^ 32
      → (pieces : List (List ℕ)) × (pool' : ThreadPool ℤ) × (w' : W) × (process_client os others
            fuel fd pool w
          ≡ some (pool', w'))
        × (seen w' ≡ note_all note (seen w) pieces)
        × All IsPiece pieces
        × (incoming w ≡ concat pieces)
        × (written w' ≡ written w ++ replies (length pieces) pool.request_counter)
        × (pool'.request_counter ≡ (pool.request_counter + length pieces) % 2 ^ 32)
  unfolding process_client get_request_number
  process_client-pieces zero pool w h fits = absurd (omega arith)
  process_client-pieces (suc fuel) pool w h fits =
      let w₁ = (os.recv fd 1023 w).1 in
      elim (Option-cases (os.recv fd 1023 w).0) [
        | inl e ↦ absurd (gives w e)
        | inr ([], e) ↦
            rw (e, process_client, alone w₁ pool)
              (
                [],
                pool,
                os.close fd w₁,
                refl,
                notes.by_close w₁ ∙ notes.by_end w e,
                tt,
                reads.ends 1023 w (omega arith) e,
                writes.kept_by_close w₁ ∙ writes.kept_by_recv 1023 w ∙ sym (append-nil (written w)),
                omega arith,
              )
        | inr (b ∷ bs, e) ↦
            let request_id = (pool.request_counter + 1) % 2 ^ 32 in
            let pool₂ : ThreadPool ℤ = record pool { request_counter = request_id } in
            let w₂ = (os.send fd (response request_id) w₁).1 in
            let (split, short) = reads.gives 1023 w (b ∷ bs) e in
            let kept = reads.kept_by_send (response request_id) w₁ in
            let fewer : length (incoming w₂) < fuel = omega (
              arith,
              ap (λ (t : List ℕ). length t) split,
              length-append (b ∷ bs) (incoming w₁),
              ap (λ (t : List ℕ). length t) kept,
            ) in
            let (pieces, pool', w', same, noted, all, rest, stream, counted) =
              process_client-pieces fuel pool₂ w₂ fewer (omega arith) in
            rw (e, process_client, alone w₁ pool)
              (
                (b ∷ bs) ∷ pieces,
                pool',
                w',
                same,
                noted
                    ∙ ap (λ a. note_all note a pieces)
                        (notes.by_send (response request_id) w₁ ∙ notes.by_piece b bs w e),
                ((omega arith, short), all),
                split ∙ ap (λ x. (b ∷ bs) ++ x) (sym kept ∙ rest),
                stream
                    ∙ ap (λ x. x ++ replies (length pieces) request_id)
                        (send-response request_id w₁
                          ∙ ap (λ x. x ++ response request_id) (writes.kept_by_recv 1023 w))
                    ∙ append_assoc (written w) (response request_id)
                        (replies (length pieces) request_id),
                omega (arith, counted),
              )
      ]
