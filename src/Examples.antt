-- ===== src/Examples.antt =====
-- Values on which the theorems are tried out, with concrete functions for what upstream computes.
mod Combining
mod Locking
mod Signing
mod Finishing
mod Wire
mod Rows
mod RoundTrips
mod Decoding
use rust_psbt.Prelude.{
  ℕ, ◌≡◌, refl, Bool, true, false, ◌==◌, if◌then◌else◌, List, [], ◌∷◌, Option, none, some,
}
use rust_psbt.Primitives.{
  Byte, OutPoint, TxIn, TxOut, Transaction, Txid, PublicKey, LockTime, blocks, seconds, ScriptBuf,
  EcdsaSighashType, TapSighashType, EcdsaSignature,
}
use rust_psbt.Sighash.{SighashTypes}
use rust_psbt.Flags.{TxModifiableFlags}
use rust_psbt.Global as GlobalMap
use rust_psbt.Input as InputMap
use rust_psbt.Input.{Input}
use rust_psbt.Input.Utxo.{ScriptClasses}
use rust_psbt.Output as OutputMap
use rust_psbt.Output.{Output}
use rust_psbt.Psbt.{Psbt}
use rust_psbt.Psbt.PartialSigs.{ReadsBack}
use rust_psbt.Roles.Signable.{Upstream}

-- A transaction's id is its version here, and its weight is 400.
abbrev pub txid_of : Transaction → Txid
txid_of tx = tx.version

abbrev pub weight_of : Transaction → ℕ
weight_of tx = 400

abbrev pub key_bytes : PublicKey → List Byte
key_bytes k = k ∷ []

abbrev pub read_ecdsa : ℕ → Option EcdsaSighashType
read_ecdsa n =
    if n == 1
    then some EcdsaSighashType.all
    else (if n == 2
        then some EcdsaSighashType.none
        else (if n == 3
            then some EcdsaSighashType.single
            else (if n == 0x81
                then some EcdsaSighashType.all_plus_anyone_can_pay
                else (if n == 0x82
                    then some EcdsaSighashType.none_plus_anyone_can_pay
                    else (if n == 0x83
                        then some EcdsaSighashType.single_plus_anyone_can_pay
                        else none)))))

abbrev pub ecdsa_number : EcdsaSighashType → ℕ
ecdsa_number EcdsaSighashType.all = 1
ecdsa_number EcdsaSighashType.none = 2
ecdsa_number EcdsaSighashType.single = 3
ecdsa_number EcdsaSighashType.all_plus_anyone_can_pay = 0x81
ecdsa_number EcdsaSighashType.none_plus_anyone_can_pay = 0x82
ecdsa_number EcdsaSighashType.single_plus_anyone_can_pay = 0x83

abbrev pub tap_number : TapSighashType → ℕ
tap_number TapSighashType.default = 0
tap_number TapSighashType.all = 1
tap_number TapSighashType.none = 2
tap_number TapSighashType.single = 3
tap_number TapSighashType.all_plus_anyone_can_pay = 0x81
tap_number TapSighashType.none_plus_anyone_can_pay = 0x82
tap_number TapSighashType.single_plus_anyone_can_pay = 0x83

abbrev pub is_single_type : EcdsaSighashType → Bool
is_single_type EcdsaSighashType.single = true
is_single_type EcdsaSighashType.single_plus_anyone_can_pay = true
is_single_type _ = false

abbrev pub types : SighashTypes
types = record {
  from_standard = read_ecdsa;
  from_consensus_u8 = λ n. if n == 0 then some TapSighashType.default else none;
  ecdsa_as_u32 = ecdsa_number;
  tap_as_u32 = tap_number;
  ecdsa_is_single = is_single_type;
}

pub types-ReadsBack : ReadsBack types
types-ReadsBack EcdsaSighashType.all = refl
types-ReadsBack EcdsaSighashType.none = refl
types-ReadsBack EcdsaSighashType.single = refl
types-ReadsBack EcdsaSighashType.all_plus_anyone_can_pay = refl
types-ReadsBack EcdsaSighashType.none_plus_anyone_can_pay = refl
types-ReadsBack EcdsaSighashType.single_plus_anyone_can_pay = refl

abbrev pub starts : ℕ → ScriptBuf → Bool
starts n [] = false
starts n (b ∷ bs) = n == b

-- The first byte of a script is its class.
abbrev pub classes : ScriptClasses
classes = record {
  is_witness_program = λ s. if starts 0 s then true else starts 1 s;
  is_p2sh = starts 2;
  is_p2wpkh = starts 0;
  is_p2wsh = starts 3;
  is_p2tr = starts 1;
}

abbrev pub upstream : Upstream
upstream = record {
  compute_txid = txid_of;
  classes = classes;
  sighash = types;
  p2sh_of = λ s. 2 ∷ s;
  p2wsh_of = λ s. 3 ∷ s;
  p2tr_of = λ k m. 1 ∷ k ∷ [];
}

abbrev pub spent : TxOut
spent = record { value = 1000; script_pubkey = 0 ∷ 5 ∷ [] }

abbrev pub funding : Transaction
funding = record { version = 7; lock_time = blocks 0; input = []; output = spent ∷ [] }

abbrev pub out_point : OutPoint
out_point = record { txid = 7; vout = 0 }

abbrev pub blank : Input
unfolding InputMap.new
blank = InputMap.new out_point

-- An input that must wait for block 100, with the transaction it spends.
abbrev pub waiting : Input
waiting = record blank { non_witness_utxo = some funding; min_height = some 100 }

abbrev pub timed : Input
timed = record blank { min_time = some 500_000_001 }

abbrev pub payment : Output
unfolding OutputMap.new
payment = OutputMap.new (record { value = 900; script_pubkey = 6 ∷ [] })

abbrev pub sample : Psbt
unfolding GlobalMap.new
sample = record {
  global = record (GlobalMap.new) {
    tx_modifiable_flags = record { bits = 3 };
    input_count = 1;
    output_count = 1;
  };
  inputs = waiting ∷ [];
  outputs = payment ∷ [];
}
