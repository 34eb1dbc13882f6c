-- ===== src/FirstClient.antt =====
-- Version1/src/Client.cpp: a client of the thread-pool server that looks at no result but that of `read`,
-- which on a connected socket is `recv`.
use thread_pool.Base.{
  ℕ, List, ◌++◌, ◌≡◌, ◌⊎◌, ◌∙◌, false, is_minus_one, ◌+◌, Option, none, some, codes, ℤ, refl, arith,
  Option-cases, inl, inr,
}
use thread_pool.Os.{Os, Descriptors, one_at}

abbrev pub message : List ℕ
message = codes "hello to server"

-- How `main` ends: it prints the response, or building the text from a count of -1 throws, which ends the
-- program before `close`.
pub data Ending : Type 0 where
  prints : List ℕ → Ending
  throws : Ending

module _ {W : Type 0} (os : Os W) where
  -- The address that `inet_pton` writes; 0 stays where it fails.
  unfoldable pub address : ℕ
  address = elim (os.inet_pton "127.0.0.1") [ none ↦ 0 | some ip ↦ ip ]

  -- `main` from the call of `read` on, with what it gave.
  unfoldable pub finish : ℤ → Option (List ℕ) → W → Ending × W
  finish fd none w = (throws, w)
  finish fd (some bytes) w = (prints (codes "Response: " ++ (bytes ++ codes "\n")), os.close fd w)

  unfoldable pub main : W → Ending × W
  main w =
      let (fd, w₁) = os.socket w in
      let (connected, w₂) = os.connect fd (address) 8080 w₁ in
      let (sent, w₃) = os.send fd message w₂ in
      let (given, w₄) = os.recv fd 1024 w₃ in finish fd given w₄

  module _ (d : ℤ) (count : W → ℕ) (laws : Descriptors os d count) where
    -- The descriptor that `socket` gives is closed again if `read` does not fail, and else left open.
    pub main-leaves :
        (w : W)
        → is_minus_one (os.socket w).0 ≡ false
        → (((main w).0 ≡ throws) × (count (main w).1 ≡ count w + one_at (os.socket w).0 d))
          ⊎ (((bytes : List ℕ) × ((main w).0
                  ≡ prints (codes "Response: " ++ (bytes ++ codes "\n"))))
              × (count (main w).1 ≡ count w))
    unfolding main finish
    main-leaves w opened =
        let fd = (os.socket w).0 in
        let w₁ = (os.socket w).1 in
        let w₂ = (os.connect fd (address) 8080 w₁).1 in
        let w₃ = (os.send fd message w₂).1 in
        let w₄ = (os.recv fd 1024 w₃).1 in
        let before : count w₁ ≡ count w + one_at fd d = rw (laws.by_socket w, opened) refl in
        let after : count w₄ ≡ count w + one_at fd d =
          laws.by_recv fd 1024 w₃
          ∙ laws.by_send fd message w₂
          ∙ laws.by_connect fd (address) 8080 w₁
          ∙ before in
        elim (Option-cases (os.recv fd 1024 w₃).0) [
          | inl e ↦ inl (rw (e, finish) (refl, after))
          | inr (bytes, e) ↦
              inr (rw (e, finish) ((bytes, refl), omega (arith, laws.by_close fd w₄, after)))
        ]
