-- ===== src/Exception.antt =====
-- The exceptions that the PacketForge sources throw, and code that may throw.
use thread_pool.Base.{String, ◌≡◌, refl, ◌⊎◌, inl, inr}
use thread_pool.Opcode.{ProtocolError}

-- `std::invalid_argument`, `ProtocolDecodeError` (include/protocol/decoder.hpp), and any other
-- `std::runtime_error`; each carries what `what()` returns.
pub data Exception : Type 0 where
  invalid_argument : String → Exception
  protocol_decode_error : ProtocolError → String → Exception
  runtime_error : String → Exception

pub data Outcome {ℓ} (A : Type ℓ) : Type ℓ where
  returns : A → Outcome A
  throws : Exception → Outcome A

infixl 5 ◌>>=◌
abbrev pub ◌>>=◌ {ℓ κ} : {A : Type ℓ} {B : Type κ} → Outcome A → (A → Outcome B) → Outcome B
returns a >>= f = f a
throws e >>= f = throws e

pub Outcome-cases {ℓ} :
    {A : Type ℓ} (o : Outcome A) → ((a : A) × (o ≡ returns a)) ⊎ ((e : Exception) × (o ≡ throws e))
Outcome-cases (returns a) = inl (a, refl)
Outcome-cases (throws e) = inr (e, refl)
