-- ===== src/Decoding.antt =====
-- The push-based decoders: the trait `Decoder` of `bitcoin_consensus_encoding` as src/encoding/mod.rs
-- and the maps use it. A decoder is fed a slice from which it takes bytes; a value of the record
-- is an implementation of the trait. A call that returns an error gives no new state: a decoder is
-- not used again after an error.
pub mod Contracts
pub mod Ensures
pub mod Fields
pub mod Rounds
pub mod Runs
use rust_psbt.Prelude.{
  ℕ, Bool, true, false, List, Option, Outcome, none, some, ok, err, panicked, zero, suc, ◌>>=◌,
}
use rust_psbt.Primitives.{Byte}

-- `DecoderStatus`.
pub data Status : Type 0 where
  ready needs_more : Status

abbrev pub is_needs_more : Status → Bool
is_needs_more ready = false
is_needs_more needs_more = true

-- What `push_bytes` leaves: the decoder, the bytes that it did not take, and the status.
pub record Pushed (S : Type 0) : Type 0 where
  pub decoder : S
  pub rest : List Byte
  pub status : Status

pub record Decoder (A : Type 0) : Type 1 where
  pub State : Type 0
  pub Error : Type 0
  pub default : State
  pub push_bytes : State → List Byte → Outcome Error (Pushed State)
  pub end : State → Outcome Error A
  pub read_limit : State → ℕ

-- One round of a `loop` in a map decoder returns, or goes on with the bytes that are left.
pub data Round (S : Type 0) : Type 0 where
  return : Pushed S → Round S
  continue : S → List Byte → Round S

module _ {S E : Type 0} where
  -- The decoder of the stage is fed, and the next stage begins when it is ready.
  unfoldable pub advance :
      (S → List Byte → Outcome E (Pushed S))
      → (S → List Byte → Outcome E (Round S))
      → Round S
      → Outcome E (Round S)
  advance push finish (return pushed) = ok (return pushed)
  advance push finish (continue d unread) = do
    p ← push d unread
    elim p.status [ needs_more ↦ ok (return p) | ready ↦ finish p.decoder p.rest ]

  -- A round of a map decoder. Between two pairs it looks for the separator.
  unfoldable pub round_of :
      (S → List Byte → Outcome E (Round S))
      → (S → List Byte → Outcome E (Pushed S))
      → (S → List Byte → Outcome E (Round S))
      → S
      → List Byte
      → Outcome E (Round S)
  unfolding advance
  round_of separator push finish d bytes = do r ← separator d bytes; advance push finish r

  -- `loop`, on fuel: `none` means that the fuel ran out.
  unfoldable pub rounds :
      (S → List Byte → Outcome E (Round S)) → ℕ → S → List Byte → Option (Outcome E (Pushed S))
  rounds round zero d bytes = none
  rounds round (suc fuel) d bytes = elim (round d bytes) [
    | ok (return pushed) ↦ some (ok pushed)
    | ok (continue d' rest) ↦ rounds round fuel d' rest
    | err e ↦ some (err e)
    | panicked ↦ some panicked
  ]

-- `ExactVecDecoderWith<D>`: `new(n)` decodes `n` values, one after the other.
pub record VecDecoder (A : Type 0) : Type 1 where
  pub State : Type 0
  pub Error : Type 0
  pub new : ℕ → State
  pub push_bytes : State → List Byte → Outcome Error (Pushed State)
  pub end : State → Outcome Error (List A)
  pub read_limit : State → ℕ

-- What `PsbtV2Decoder` takes from upstream: the decoder of four bytes, and that of many maps.
pub record Containers : Type 1 where
  pub magic : Decoder (List Byte)
  pub exact_vec : (A : Type 0) → Decoder A → VecDecoder A
