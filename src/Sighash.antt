-- ===== src/Sighash.antt =====
-- src/sighash_type.rs: `PsbtSighashType` and its classification.
-- The two readers of a number as an upstream sighash type, and the numbers that the upstream types
-- stand for, are the interface `SighashTypes`.
use rust_psbt.Prelude.{
  ℕ, Bool, true, false, not, Option, bit_and, ltb, ◌==◌, Outcome, ok, err, ok_or, if◌then◌else◌,
}
use rust_psbt.Primitives.{EcdsaSighashType, TapSighashType}

pub record SighashTypes : Type 0 where
  pub from_standard : ℕ → Option EcdsaSighashType
  pub from_consensus_u8 : ℕ → Option TapSighashType
  pub ecdsa_as_u32 : EcdsaSighashType → ℕ
  pub tap_as_u32 : TapSighashType → ℕ
  pub ecdsa_is_single : EcdsaSighashType → Bool

abbrev pub sighash_anyonecanpay : ℕ
sighash_anyonecanpay = 0x80

pub record PsbtSighashType : Type 0 where
  pub inner : ℕ

-- `PsbtSighashType::ALL`.
abbrev pub sighash_all : PsbtSighashType
sighash_all = record { inner = 0x01 }

abbrev pub is_none_type : EcdsaSighashType → Bool
is_none_type EcdsaSighashType.none = true
is_none_type EcdsaSighashType.none_plus_anyone_can_pay = true
is_none_type _ = false

-- `PsbtSighashType == PsbtSighashType`, derived.
abbrev pub sighash_eq : PsbtSighashType → PsbtSighashType → Bool
sighash_eq a b = a.inner == b.inner

-- The errors carry the number that was refused.
pub data SighashError : Type 0 where
  non_standard_sighash_type : ℕ → SighashError
  invalid_sighash_type : ℕ → SighashError

module _ (s : SighashTypes) where
  abbrev pub from_ecdsa : EcdsaSighashType → PsbtSighashType
  from_ecdsa t = record { inner = s.ecdsa_as_u32 t }

  abbrev pub from_tap : TapSighashType → PsbtSighashType
  from_tap t = record { inner = s.tap_as_u32 t }

  unfoldable pub ecdsa_hash_ty : PsbtSighashType → Outcome SighashError EcdsaSighashType
  ecdsa_hash_ty t = ok_or (s.from_standard t.inner) (non_standard_sighash_type t.inner)

  unfoldable pub taproot_hash_ty : PsbtSighashType → Outcome SighashError TapSighashType
  taproot_hash_ty t =
      if ltb t.inner 256
      then ok_or (s.from_consensus_u8 t.inner) (invalid_sighash_type t.inner)
      else err (invalid_sighash_type t.inner)

  unfoldable pub is_anyone_can_pay : PsbtSighashType → Bool
  is_anyone_can_pay t = not (bit_and t.inner sighash_anyonecanpay == 0)

  unfoldable pub is_none : PsbtSighashType → Bool
  unfolding ecdsa_hash_ty
  is_none t = elim (ecdsa_hash_ty t) [ ok e ↦ is_none_type e | _ ↦ false ]

  unfoldable pub is_single : PsbtSighashType → Bool
  unfolding ecdsa_hash_ty
  is_single t = elim (ecdsa_hash_ty t) [ ok e ↦ s.ecdsa_is_single e | _ ↦ false ]
