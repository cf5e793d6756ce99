-- ===== src/Examples/Decoding.antt =====
-- The decoders, on bytes that they take.
use rust_psbt.Prelude.{
  ℕ, suc, ◌≡◌, ◌≢◌, bytes_eq, refl, none, some, List, [], ◌∷◌, ◌++◌, All, ok, length,
}
use rust_psbt.Primitives.{Byte, blocks, EcdsaSighashType}
use rust_psbt.BTreeMap.{get, contains_key, insert}
use rust_psbt.Numbers.{version_of}
use rust_psbt.Decoding.{advance, round_of, rounds}
use rust_psbt.Decoding.Fields.{set_once, insert_vacant, push_in}
use rust_psbt.Decoding.Ensures.{fresh, fed}
use rust_psbt.Framing.{
  value_default, push_prefix, push_value, after_prefix, value_push_bytes, declared_length,
  value_end,
}
use rust_psbt.Keys.Codec.{key_push_bytes, parse_body, key_end}
use rust_psbt.Global.{Global}
use rust_psbt.Global as GlobalMap
use rust_psbt.Global.Decoder as Globals
use rust_psbt.Global.Decoder.Stage as GlobalStages
use rust_psbt.Global.Decoder.Laws.{IsDecoded, Fed-end-IsDecoded}
use rust_psbt.Input.{Input}
use rust_psbt.Input as InputMap
use rust_psbt.Input.Decoder as Inputs
use rust_psbt.Input.Decoder.State as InputStates
use rust_psbt.Input.Decoder.Stage as InputStages
use rust_psbt.Input.Decoder.Singles as Singles
use rust_psbt.Input.Decoder.Entries as Entries
use rust_psbt.Input.Decoder.Ends.{ReadsInputs, push_from-total}
use rust_psbt.Input.Decoder.Laws.{IsPaired, Funds, Fed-end_funded}
use rust_psbt.Output.{Output, validate}
use rust_psbt.Output as OutputMap
use rust_psbt.Output.Decoder as Outputs
use rust_psbt.Output.Decoder.Stage as OutputStages
use rust_psbt.Output.Decoder.Laws.{Fed-end_valid}
use rust_psbt.Psbt.{Psbt}
use rust_psbt.Psbt.Combine.Laws.{IsWellFormed}
use rust_psbt.Psbt.Decoder as Psbts
use rust_psbt.Psbt.Decoder.Laws.{Fed-end_consistent}
use rust_psbt.Examples.{txid_of}
use rust_psbt.Examples.Wire.{
  codecs, encoders, one-IsFramed, measured-IsFramed, push_one, end_one, take_bytes, push_some,
  end_some, first_byte,
}
use rust_psbt.Examples.Rows.{containers, containers-exact, push_row, end_row}

abbrev global_bytes : List Byte
global_bytes =
    (1 ∷ 0xFB ∷ 1 ∷ 2 ∷ [])
    ++ ((1 ∷ 2 ∷ 1 ∷ 2 ∷ []) ++ ((1 ∷ 4 ∷ 1 ∷ 1 ∷ []) ++ ((1 ∷ 5 ∷ 1 ∷ 1 ∷ []) ++ (0 ∷ []))))

-- The txid, the index, the transaction and a signature of key 5.
abbrev input_bytes : List Byte
input_bytes =
    (1 ∷ 0x0e ∷ 1 ∷ 7 ∷ [])
    ++ ((1 ∷ 0x0f ∷ 1 ∷ 0 ∷ []) ++ ((1 ∷ 0 ∷ 1 ∷ 7 ∷ []) ++ ((2 ∷ 2 ∷ 5 ∷ 1 ∷ 9 ∷ []) ++ (0 ∷ []))))

abbrev output_bytes : List Byte
output_bytes = (1 ∷ 3 ∷ 1 ∷ 9 ∷ []) ++ ((1 ∷ 4 ∷ 2 ∷ 6 ∷ 6 ∷ []) ++ (0 ∷ []))

abbrev decoded_global : Global
unfolding GlobalMap.new
decoded_global = record (GlobalMap.new) {
  input_count = 1;
  output_count = 1;
  tx_modifiable_flags = record { bits = 0 };
}

abbrev decoded_input : Input
unfolding InputMap.new
decoded_input = record (InputMap.new (record { txid = 7; vout = 0 })) {
  non_witness_utxo = some (record { version = 7; lock_time = blocks 0; input = []; output = [] });
  partial_sigs = (5, record { signature = 1; sighash_type = EcdsaSighashType.all }) ∷ [];
}

abbrev decoded_output : Output
unfolding OutputMap.new
decoded_output = OutputMap.new (record { value = 9; script_pubkey = 6 ∷ 6 ∷ [] })

abbrev decoded : Psbt
decoded = record {
  global = decoded_global;
  inputs = decoded_input ∷ [];
  outputs = decoded_output ∷ [];
}

Fed-end-IsDecoded_example : IsDecoded codecs encoders decoded_global
unfolding GlobalMap.new push_one end_one take_bytes push_some end_some first_byte advance round_of
    rounds set_once insert_vacant push_in value_default push_prefix push_value after_prefix
    value_push_bytes declared_length value_end key_push_bytes parse_body key_end contains_key insert
    Globals.complete Globals.at_separator Globals.separator_round Globals.push_round Globals.finish
    Globals.round Globals.push_from Globals.end GlobalStages.version_end
    GlobalStages.version_push_bytes GlobalStages.version_error GlobalStages.from_key
    GlobalStages.push_stage version_of
Fed-end-IsDecoded_example =
    Fed-end-IsDecoded codecs encoders
      {d = Globals.without_fields codecs encoders (GlobalStages.done decoded_global)}
      {o = decoded_global} (fed global_bytes _ fresh refl) refl

Fed-end_funded_example :
    InputMap.IsWellFormed decoded_input
    × IsPaired codecs txid_of decoded_input
    × Funds codecs txid_of decoded_input decoded_input.non_witness_utxo
unfolding InputMap.new push_one end_one take_bytes push_some end_some first_byte advance round_of
    rounds set_once insert_vacant push_in value_default push_prefix push_value after_prefix
    value_push_bytes declared_length value_end key_push_bytes parse_body key_end contains_key insert
    InputStates.complete Inputs.at_separator Inputs.separator_round Inputs.push_round Inputs.finish
    Inputs.round Inputs.push_from Inputs.check_txid Inputs.end InputStages.from_key
    InputStages.push_stage Singles.finish_previous_txid Singles.finish_output_index
    Singles.finish_sequence Singles.finish_min_time Singles.finish_min_height
    Singles.finish_non_witness_utxo Singles.finish_witness_utxo Singles.finish_sighash_type
    Singles.finish_redeem_script Singles.finish_witness_script Singles.finish_final_script_sig
    Singles.finish_final_script_witness Singles.finish_tap_key_sig Singles.finish_tap_internal_key
    Singles.finish_tap_merkle_root Entries.finish_partial_sig Entries.finish_bip32_derivation
    Entries.finish_ripemd160 Entries.finish_sha256 Entries.finish_hash160 Entries.finish_hash256
    Entries.finish_tap_script_sig Entries.finish_leaf_script Entries.finish_tap_bip32_derivation
    Entries.finish_proprietary Entries.finish_unknown Entries.finish_sp_ecdh_share
    Entries.finish_sp_dleq_proof get
Fed-end_funded_example =
    Fed-end_funded codecs txid_of
      {d = InputStates.without_fields codecs (InputStages.done decoded_input)} {o = decoded_input}
      (fed input_bytes _ fresh refl) refl

Fed-end_valid_example : OutputMap.IsWellFormed decoded_output × (validate decoded_output ≡ ok tt)
unfolding OutputMap.new push_one end_one take_bytes push_some end_some first_byte advance round_of
    rounds set_once insert_vacant push_in value_default push_prefix push_value after_prefix
    value_push_bytes declared_length value_end key_push_bytes parse_body key_end contains_key insert
    Outputs.complete Outputs.take_script_pubkey validate Outputs.at_separator
    Outputs.separator_round Outputs.push_round Outputs.finish Outputs.round Outputs.push_from
    Outputs.end OutputStages.from_key OutputStages.push_stage get
Fed-end_valid_example =
    Fed-end_valid codecs {d = Outputs.without_fields codecs (OutputStages.done decoded_output)}
      {o = decoded_output} (fed output_bytes _ fresh refl) refl

Fed-end_consistent_example :
    (decoded.global.version ≡ 2)
    × (length decoded.inputs ≡ decoded.global.input_count)
    × (length decoded.outputs ≡ decoded.global.output_count)
    × All (λ i. Funds codecs txid_of i i.non_witness_utxo) decoded.inputs
    × All (λ o. validate o ≡ ok tt) decoded.outputs
    × IsWellFormed decoded
unfolding GlobalMap.new InputMap.new OutputMap.new push_one end_one take_bytes push_some end_some
    first_byte advance round_of rounds set_once insert_vacant push_in value_default push_prefix
    push_value after_prefix value_push_bytes declared_length value_end key_push_bytes parse_body
    key_end contains_key insert Globals.complete Globals.at_separator Globals.separator_round
    Globals.push_round Globals.finish Globals.round Globals.push_from Globals.end
    GlobalStages.version_end GlobalStages.version_push_bytes GlobalStages.version_error
    GlobalStages.from_key GlobalStages.push_stage InputStates.complete Inputs.at_separator
    Inputs.separator_round Inputs.push_round Inputs.finish Inputs.round Inputs.push_from
    Inputs.check_txid Inputs.end InputStages.from_key InputStages.push_stage
    Singles.finish_previous_txid Singles.finish_output_index Singles.finish_sequence
    Singles.finish_min_time Singles.finish_min_height Singles.finish_non_witness_utxo
    Singles.finish_witness_utxo Singles.finish_sighash_type Singles.finish_redeem_script
    Singles.finish_witness_script Singles.finish_final_script_sig
    Singles.finish_final_script_witness Singles.finish_tap_key_sig Singles.finish_tap_internal_key
    Singles.finish_tap_merkle_root Entries.finish_partial_sig Entries.finish_bip32_derivation
    Entries.finish_ripemd160 Entries.finish_sha256 Entries.finish_hash160 Entries.finish_hash256
    Entries.finish_tap_script_sig Entries.finish_leaf_script Entries.finish_tap_bip32_derivation
    Entries.finish_proprietary Entries.finish_unknown Entries.finish_sp_ecdh_share
    Entries.finish_sp_dleq_proof Outputs.complete Outputs.take_script_pubkey validate
    Outputs.at_separator Outputs.separator_round Outputs.push_round Outputs.finish Outputs.round
    Outputs.push_from Outputs.end OutputStages.from_key OutputStages.push_stage Psbts.push_stage
    Psbts.finish Psbts.round Psbts.end push_row end_row bytes_eq version_of get
Fed-end_consistent_example =
    Fed-end_consistent codecs encoders txid_of containers containers-exact {s = Psbts.done decoded}
      {p = decoded}
      (fed
        ((0x70 ∷ 0x73 ∷ 0x62 ∷ 0x74 ∷ 0xff ∷ []) ++ (global_bytes ++ (input_bytes ++ output_bytes)))
        _ fresh refl)
      refl

reads_inputs : ReadsInputs codecs
reads_inputs = record {
  script = measured-IsFramed _;
  taproot_signature = measured-IsFramed _;
  ecdsa_signature = measured-IsFramed _;
  key_source = measured-IsFramed _;
  byte_vec = measured-IsFramed _;
  leaf_script = measured-IsFramed _;
  tap_key_origin = measured-IsFramed _;
  compact_size = one-IsFramed _;
  txid = (one-IsFramed {A = ℕ} (λ b. b)).shrinks;
  vout = (one-IsFramed {A = ℕ} (λ b. b)).shrinks;
  sequence = (one-IsFramed {A = ℕ} (λ b. b)).shrinks;
  time = (one-IsFramed {A = ℕ} (λ b. b)).shrinks;
  height = (one-IsFramed {A = ℕ} (λ b. b)).shrinks;
  transaction = (one-IsFramed {A = ℕ} (λ b. b)).shrinks;
  tx_out = (one-IsFramed {A = ℕ} (λ b. b)).shrinks;
  sighash_type = (one-IsFramed {A = ℕ} (λ b. b)).shrinks;
  witness = (one-IsFramed {A = ℕ} (λ b. b)).shrinks;
  xonly_public_key = (one-IsFramed {A = ℕ} (λ b. b)).shrinks;
  tap_node_hash = (one-IsFramed {A = ℕ} (λ b. b)).shrinks;
  compressed_public_key = (one-IsFramed {A = ℕ} (λ b. b)).shrinks;
  dleq_proof = (one-IsFramed {A = ℕ} (λ b. b)).shrinks;
}

push_from-total_example :
    Inputs.push_from codecs txid_of
      (suc (suc (length input_bytes)))
      InputStages.decoding_separator
      (InputStates.default codecs)
      input_bytes
    ≢ none
push_from-total_example =
    push_from-total codecs txid_of reads_inputs InputStages.decoding_separator
      (InputStates.default codecs) input_bytes
