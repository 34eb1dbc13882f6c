-- ===== src/App/Probe.antt =====
-- PacketForge_V1/apps/packetforge_protocol_error_client.cpp and packetforge_dispatch_failure_client.cpp:
-- two clients on bare system calls that send one header and judge the answer. They hold the same helper
-- functions, and the same `main` but for constants and a call of `shutdown`. Console output is left out.
pub mod Loops
pub mod Verdict
pub mod Cleanup
pub mod Connecting
use mathlib.Core.WellFounded.{Acc}
use thread_pool.Base.{
  ℕ, zero, suc, ◌+◌, ◌-◌, ◌<◌, List, [], ◌∷◌, ◌++◌, Bool, true, false, not, ◌&&◌, ◌==◌,
  if◌then◌else◌, Option, none, some, ℤ, pos, negsuc, is_negative, length, take, drop, get_or,
  Shorter, all_shorter, all_below, drop-Shorter, sub-lt-suc,
}
use thread_pool.Endian.{Endianness, object_bytes, object_value}
use thread_pool.Packet.{magic_number}
use thread_pool.Os.{Os}

-- The C library's conversions, which the repository does not hold.
pub record Conversions : Type 0 where
  pub htons : ℕ → ℕ
  pub htonl : ℕ → ℕ
  pub ntohs : ℕ → ℕ
  pub ntohl : ℕ → ℕ

-- The constants in which the two programs differ.
pub record Probe : Type 0 where
  pub version : ℕ
  pub opcode : ℕ
  pub half_closes : Bool
  pub expected_sequence_id : ℕ
  pub expected_error : ℕ

abbrev pub protocol_error_probe : Probe
protocol_error_probe = record {
  version = 99;
  opcode = 1;
  half_closes = false;
  expected_sequence_id = 0;
  expected_error = 3;
}

abbrev pub dispatch_failure_probe : Probe
dispatch_failure_probe = record {
  version = 1;
  opcode = 0xFFFF;
  half_closes = true;
  expected_sequence_id = 1;
  expected_error = 2;
}

abbrev pub write_at : List ℕ → ℕ → List ℕ → List ℕ
write_at buffer offset bytes = take offset buffer ++ (bytes ++ drop (offset + length bytes) buffer)

-- A header buffer before it is filled in.
abbrev pub zeroes : List ℕ
zeroes = 0 ∷ 0 ∷ 0 ∷ 0 ∷ 0 ∷ 0 ∷ 0 ∷ 0 ∷ 0 ∷ 0 ∷ 0 ∷ 0 ∷ 0 ∷ 0 ∷ 0 ∷ 0 ∷ []

module _ (calls : Conversions) (host : Endianness) where
  unfoldable pub write_uint16 : List ℕ → ℕ → ℕ → List ℕ
  write_uint16 buffer offset value =
      write_at buffer offset (object_bytes host 2 (calls.htons value))

  unfoldable pub write_uint32 : List ℕ → ℕ → ℕ → List ℕ
  write_uint32 buffer offset value =
      write_at buffer offset (object_bytes host 4 (calls.htonl value))

  unfoldable pub read_uint16 : List ℕ → ℕ → ℕ
  read_uint16 buffer offset = calls.ntohs (object_value host (take 2 (drop offset buffer)))

  unfoldable pub read_uint32 : List ℕ → ℕ → ℕ
  read_uint32 buffer offset = calls.ntohl (object_value host (take 4 (drop offset buffer)))

  -- The header that `main` fills in, field by field.
  unfoldable pub make_header : Probe → List ℕ
  unfolding write_uint16 write_uint32
  make_header p =
      let magic = write_uint32 zeroes 0 magic_number in
      let version = write_at magic 4 (p.version ∷ []) in
      let flags = write_at version 5 (0 ∷ []) in
      let opcode = write_uint16 flags 6 p.opcode in
      let sequence_id = write_uint32 opcode 8 1 in write_uint32 sequence_id 12 0

  -- `passed`, from the header and the payload byte of the answer.
  unfoldable pub passed : Probe → List ℕ → ℕ → Bool
  unfolding read_uint16 read_uint32
  passed p header code =
      (read_uint32 header 0 == magic_number)
      && (get_or header 4 0 == 1)
      && (read_uint16 header 6 == 100)
      && (read_uint32 header 8 == p.expected_sequence_id)
      && (read_uint32 header 12 == 1)
      && (code == p.expected_error)

module _ {W : Type 0} (os : Os W) where
  -- `sendAll`, from the byte at `totalSent` on.
  unfoldable pub send_all : ℤ → (rest : List ℕ) → Acc Shorter rest → W → Bool × W
  send_all fd [] _ w = (true, w)
  send_all fd (b ∷ bs) (Acc.intro _ smaller) w = elim (os.send fd (b ∷ bs) w).0 [
    | negsuc _ ↦ (false, (os.send fd (b ∷ bs) w).1)
    | pos zero ↦ (false, (os.send fd (b ∷ bs) w).1)
    | pos (suc n) ↦
        send_all fd (drop n bs) (smaller (drop n bs) (drop-Shorter n b bs))
          (os.send fd (b ∷ bs) w).1
  ]

  -- `receiveAll`: the filled buffer, or `none` for false. The number is `size - totalReceived`.
  unfoldable pub receive_all :
      ℤ → (missing : ℕ) → Acc ◌<◌ missing → List ℕ → W → Option (List ℕ) × W
  receive_all fd zero _ got w = (some got, w)
  receive_all fd (suc m) (Acc.intro _ smaller) got w = elim (os.recv fd (suc m) w).0 [
    | none ↦ (none, (os.recv fd (suc m) w).1)
    | some [] ↦ (none, (os.recv fd (suc m) w).1)
    | some (b ∷ bs) ↦
        receive_all fd (m - length bs) (smaller (m - length bs) (sub-lt-suc m (length bs)))
          (got ++ (b ∷ bs)) (os.recv fd (suc m) w).1
  ]

  module _ (calls : Conversions) (host : Endianness) where
    -- The end of `main`, when the payload byte has been asked for.
    unfoldable pub judge : Probe → ℤ → List ℕ → Option (List ℕ) → W → ℕ × W
    judge p fd header none w = (1, os.close fd w)
    judge p fd header (some payload) w =
        if passed calls host p header (get_or payload 0 0)
        then (0, os.close fd w)
        else (1, os.close fd w)

    -- `main` from the call that asks for the answer's header on, with what that call came back with.
    unfoldable pub check_answer : Probe → ℤ → Option (List ℕ) → W → ℕ × W
    check_answer p fd none w = (1, os.close fd w)
    check_answer p fd (some header) w =
        if not (read_uint32 calls host header 12 == 1)
        then (1, os.close fd w)
        else (let (payload, w') = receive_all fd 1 (all_below 1) [] w in
            judge p fd header payload w')

    -- `main` on a connected descriptor: the exit code.
    unfoldable pub converse : Probe → ℤ → W → ℕ × W
    converse p fd w =
        let header = make_header calls host p in
        let (sent, w₁) = send_all fd header (all_shorter header) w in
        if not sent
        then (1, os.close fd w₁)
        else (let w₂ = (if p.half_closes then os.shutdown_write fd w₁ else w₁) in
            let (answer, w₃) = receive_all fd 16 (all_below 16) [] w₂ in
            check_answer p fd answer w₃)

    attach : Probe → ℤ → W → ℕ × W
    attach p fd w = elim (os.inet_pton "127.0.0.1") [
      | none ↦ (1, os.close fd w)
      | some ip ↦
          (let (r, w') = os.connect fd ip 9090 w in
            if is_negative r then (1, os.close fd w') else converse p fd w')
    ]

    -- `main`.
    unfoldable pub main : Probe → W → ℕ × W
    unfolding attach
    main p w = let (fd, w') = os.socket w in if is_negative fd then (1, w') else attach p fd w'

    -- The two programs.
    abbrev pub protocol_error_client : W → ℕ × W
    protocol_error_client w = main protocol_error_probe w

    abbrev pub dispatch_failure_client : W → ℕ × W
    dispatch_failure_client w = main dispatch_failure_probe w
