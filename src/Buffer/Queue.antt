-- ===== src/Buffer/Queue.antt =====
-- PacketForge_V1/src/common/buffer.cpp against a queue of bytes.
use thread_pool.Base.{
  ℕ, zero, suc, ◌+◌, ◌≤◌, ◌<◌, ◌^◌, ◌≡◌, refl, ◌∙◌, ap, List, [], ◌∷◌, ◌++◌, Option, some, none,
  ltb, leb, if◌then◌else◌, length, take, drop, length-append, length-drop, append-nil, Bool-cases,
  inl, inr, arith,
}
use thread_pool.Buffer.{Buffer, write, read, readable_size, clear}

-- A call of one of the operations, and what it gives back: the bytes of a read that succeeds.
pub data Call : Type 0 where
  writes : List ℕ → Call
  reads : ℕ → Call
  clears : Call

-- A call on a buffer. A read goes to an empty destination.
abbrev pub perform : Call → Buffer → Option (List ℕ) × Buffer
perform (writes more) b = (none, write more b)
perform (reads n) b =
    let (done, bytes, b') = read n [] b in ((if done then some bytes else none), b')
perform clears b = (none, clear b)

-- The same call on a queue: a read takes the first bytes, or nothing if there are too few.
abbrev pub perform_queue : Call → List ℕ → Option (List ℕ) × List ℕ
perform_queue (writes more) q = (none, q ++ more)
perform_queue (reads n) q = if leb n (length q) then (some (take n q), drop n q) else (none, q)
perform_queue clears q = (none, [])

abbrev pub run : List Call → Buffer → List (Option (List ℕ)) × Buffer
run [] b = ([], b)
run (c ∷ cs) b =
    let (answer, b') = perform c b in let (answers, b'') = run cs b' in (answer ∷ answers, b'')

abbrev pub run_queue : List Call → List ℕ → List (Option (List ℕ)) × List ℕ
run_queue [] q = ([], q)
run_queue (c ∷ cs) q =
    let (answer, q') = perform_queue c q in
    let (answers, q'') = run_queue cs q' in (answer ∷ answers, q'')

abbrev pub written : List Call → ℕ
written [] = 0
written (writes more ∷ cs) = length more + written cs
written (reads n ∷ cs) = written cs
written (clears ∷ cs) = written cs

-- The bytes that are still to be read.
abbrev pub unread : Buffer → List ℕ
unread b = drop b.read_position b.bytes

drop-append : (n : ℕ) (xs ys : List ℕ) → n ≤ length xs → drop n (xs ++ ys) ≡ drop n xs ++ ys
drop-append zero xs ys h = refl
drop-append (suc n) [] ys h = absurd (omega (arith, h))
drop-append (suc n) (x ∷ xs) ys h = drop-append n xs ys (omega (arith, h))

drop-drop : (m n k : ℕ) (xs : List ℕ) → k ≡ m + n → drop n (drop m xs) ≡ drop k xs
drop-drop zero n k xs e = ap (λ i. drop i xs) (omega (arith, e))
drop-drop (suc m) n zero xs e = absurd (omega (arith, e))
drop-drop (suc m) zero (suc k) [] e = refl
drop-drop (suc m) (suc n) (suc k) [] e = refl
drop-drop (suc m) n (suc k) (x ∷ xs) e = drop-drop m n k xs (omega (arith, e))

drop-nil : (n : ℕ) → drop {A = ℕ} n [] ≡ []
drop-nil zero = refl
drop-nil (suc n) = refl

-- The position stands within the bytes, and so many more may come before a size wraps around.
pub record IsSound (b : Buffer) (more : ℕ) : Type 0 where
  pub within : b.read_position ≤ length b.bytes
  pub room : length b.bytes + more < 2 ^ 64

readable_size-unread :
    (b : Buffer) (more : ℕ) → IsSound b more → readable_size b ≡ length (unread b)
unfolding readable_size
readable_size-unread b more v = omega (arith, v.within, v.room, length-drop b.read_position b.bytes)

perform-perform_queue :
    (c : Call) (b : Buffer) (cs : List Call)
    → IsSound b (written (c ∷ cs))
    → let (answer, b') = perform c b in
      (answer ≡ (perform_queue c (unread b)).0)
      × (unread b' ≡ (perform_queue c (unread b)).1)
      × IsSound b' (written cs)
unfolding read
perform-perform_queue (writes more) b cs v = (
  refl,
  drop-append b.read_position b.bytes more v.within,
  record {
    within = omega (arith, v.within, length-append b.bytes more);
    room = omega (arith, v.room, length-append b.bytes more);
  },
)
perform-perform_queue (reads n) b cs v =
    let same = readable_size-unread b (written cs) v in
    let moved = drop-drop b.read_position n (b.read_position + n) b.bytes refl in
    elim (Bool-cases (ltb (readable_size b) n)) [
      | inl few ↦ ground (arith, few, same)
      | inr enough ↦
          let exact : take n (unread b) ++ drop n [] ≡ take n (unread b) =
            ap (λ t. take n (unread b) ++ t) (drop-nil n) ∙ append-nil (take n (unread b)) in
          ground (arith, enough, same, moved, exact, length-drop b.read_position b.bytes)
    ]
perform-perform_queue clears b cs v =
    (refl, refl, record { within = omega arith; room = omega (arith, v.room) })

-- Any sequence of calls on a sound buffer gives the answers that a queue of its unread bytes gives,
-- and leaves the queue's bytes unread, as long as all that is written stays below 2 ^ 64 bytes.
pub run-run_queue :
    (cs : List Call) (b : Buffer)
    → IsSound b (written cs)
    → ((run cs b).0 ≡ (run_queue cs (unread b)).0)
      × (unread (run cs b).1 ≡ (run_queue cs (unread b)).1)
run-run_queue [] b v = (refl, refl)
run-run_queue (c ∷ cs) b v =
    let (answer, queue, v') = perform-perform_queue c b cs v in
    let (answers, left) = run-run_queue cs (perform c b).1 v' in
    ground (arith, answer, queue, answers, left)
