-- ===== src/Output/Combine.antt =====
-- `Output::combine`.
use rust_psbt.Prelude.{ℕ, not, ◌==◌, bytes_eq, Outcome, ok, fail_if, ◌>>◌}
use rust_psbt.Primitives.{ScriptBuf}
use rust_psbt.Ordered.{nat_ord}
use rust_psbt.Keys.{key_ord, proprietary_ord, combine_option, combine_map}
use rust_psbt.Output.{Output}

-- `output::CombineError`.
pub data CombineError : Type 0 where
  amount_mismatch : ℕ → ℕ → CombineError
  script_pubkey_mismatch : ScriptBuf → ScriptBuf → CombineError

-- What is left of `self` once both identities agree.
unfoldable pub merge : Output → Output → Output
unfolding combine_option combine_map
merge a b = record {
  amount = a.amount;
  script_pubkey = a.script_pubkey;
  redeem_script = combine_option a.redeem_script b.redeem_script;
  witness_script = combine_option a.witness_script b.witness_script;
  bip32_derivations = combine_map a.bip32_derivations b.bip32_derivations;
  tap_internal_key = combine_option a.tap_internal_key b.tap_internal_key;
  tap_tree = combine_option a.tap_tree b.tap_tree;
  tap_key_origins = combine_map a.tap_key_origins b.tap_key_origins;
  sp_v0_info = combine_option a.sp_v0_info b.sp_v0_info;
  sp_v0_label = combine_option a.sp_v0_label b.sp_v0_label;
  proprietaries = combine_map a.proprietaries b.proprietaries;
  unknowns = combine_map a.unknowns b.unknowns;
}

unfoldable pub combine : Output → Output → Outcome CombineError Output
combine a b = do
  fail_if (not (a.amount == b.amount)) (amount_mismatch a.amount b.amount)
  fail_if (not (bytes_eq a.script_pubkey b.script_pubkey))
      (script_pubkey_mismatch a.script_pubkey b.script_pubkey)
  ok (merge a b)
