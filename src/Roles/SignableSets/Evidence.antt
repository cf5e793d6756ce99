-- ===== src/Roles/SignableSets/Evidence.antt =====
-- What a `SignableInput` vouches for.
use rust_psbt.Prelude.{ℕ, ◌≡◌, ◌<◌, ◌⊎◌, Bool, true, false, [], length, get_elem?, some, none}
use rust_psbt.Primitives.{ScriptBuf, TxOut, TapSighashType, EcdsaSighashType}
use rust_psbt.Sighash as Sighash
use rust_psbt.Sighash.{PsbtSighashType}
use rust_psbt.Input as InputMap
use rust_psbt.Input.{Input}
use rust_psbt.Input.Utxo.{
  ScriptClasses, OutputType, bare, wpkh, wsh, sh_wpkh, sh_wsh, sh, tr, output_type,
}
use rust_psbt.Input.Funding.{IsSpent}
use rust_psbt.Psbt.{Psbt}
use rust_psbt.Roles.Signable.{Upstream, SignableInput}

-- The funding output is the one that the input spends, and the witness UTXO if that is there too; or
-- there is the witness UTXO alone.
abbrev pub IsFunding : Upstream → Input → TxOut → Type 0
IsFunding u i t =
    (IsSpent u.compute_txid i t × ((i.witness_utxo ≡ none) ⊎ (i.witness_utxo ≡ some t)))
    ⊎ ((i.non_witness_utxo ≡ none) × (i.witness_utxo ≡ some t))

-- The redeem script passes the test.
abbrev pub Redeems : (ScriptBuf → Bool) → Input → Type 0
Redeems test i = (r : ScriptBuf) × (i.redeem_script ≡ some r) × (test r ≡ true)

-- The script that an output of each type has.
abbrev pub Pays : ScriptClasses → Input → ScriptBuf → OutputType → Type 0
Pays c i spk bare = (c.is_witness_program spk ≡ false) × (c.is_p2sh spk ≡ false)
Pays c i spk wpkh = c.is_p2wpkh spk ≡ true
Pays c i spk wsh = c.is_p2wsh spk ≡ true
Pays c i spk sh_wpkh = (c.is_p2sh spk ≡ true) × Redeems c.is_p2wpkh i
Pays c i spk sh_wsh = (c.is_p2sh spk ≡ true) × Redeems c.is_p2wsh i
Pays c i spk sh =
    (c.is_p2sh spk ≡ true)
    × ((r : ScriptBuf)
        → i.redeem_script ≡ some r
        → (c.is_p2wpkh r ≡ false) × (c.is_p2wsh r ≡ false))
Pays c i spk tr = c.is_p2tr spk ≡ true

-- The script that is signed: the output's own, the redeem script behind a script hash, the witness
-- script behind a witness script hash, and none for taproot.
abbrev pub Signs : Input → TxOut → ScriptBuf → OutputType → Type 0
Signs i t code bare = code ≡ t.script_pubkey
Signs i t code wpkh = code ≡ t.script_pubkey
Signs i t code wsh = i.witness_script ≡ some code
Signs i t code sh_wpkh = i.redeem_script ≡ some code
Signs i t code sh_wsh = i.witness_script ≡ some code
Signs i t code sh = i.redeem_script ≡ some code
Signs i t code tr = code ≡ []

-- The sighash type is one that the algorithm of the output type knows.
abbrev pub Knows : Upstream → PsbtSighashType → OutputType → Type 0
Knows u t tr =
    (t.inner < 256) × (s : TapSighashType) × (u.sighash.from_consensus_u8 t.inner ≡ some s)
Knows u t _ = (s : EcdsaSighashType) × (u.sighash.from_standard t.inner ≡ some s)

-- What an input declares no sighash type for: DEFAULT for taproot, else ALL.
abbrev pub Defaults : Upstream → PsbtSighashType → OutputType → Type 0
Defaults u t tr = t.inner ≡ u.sighash.tap_as_u32 TapSighashType.default
Defaults u t _ = t.inner ≡ 1

-- What holds of an input that `check_data` accepts.
pub record IsChecked (u : Upstream) (p : Psbt) (n : ℕ) (x : SignableInput) : Type 0 where
  pub input : Input
  pub found : get_elem? p.inputs n ≡ some input
  pub counted : n < p.global.input_count
  pub index : x.index ≡ n
  pub funding : IsFunding u input x.prevout
  pub pays : Pays u.classes input x.prevout.script_pubkey x.output_type
  pub legacy : x.output_type ≡ bare → input.witness_utxo ≡ none
  pub signs : Signs input x.prevout x.script_code x.output_type
  pub declared : (t : PsbtSighashType) → input.sighash_type ≡ some t → x.sighash_ty ≡ t
  pub defaulted : input.sighash_type ≡ none → Defaults u x.sighash_ty x.output_type
  pub known : (t : PsbtSighashType) → input.sighash_type ≡ some t → Knows u t x.output_type
  pub single :
      (s : EcdsaSighashType)
      → u.sighash.from_standard x.sighash_ty.inner ≡ some s
      → u.sighash.ecdsa_is_single s ≡ true
      → n < length p.outputs
