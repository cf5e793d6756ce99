-- ===== src/Examples/RoundTrips.antt =====
-- An output map, written and read back.
use rust_psbt.Prelude.{ℕ, refl, [], ◌∷◌}
use rust_psbt.Decoding.Contracts.{Reads}
use rust_psbt.Decoding.Runs.{ReadsKey, framed-Reads}
use rust_psbt.Framing.{
  framed, value_default, push_prefix, push_value, after_prefix, value_push_bytes, declared_length,
  value_end,
}
use rust_psbt.Keys.Codec.{to_key, encode_proprietary}
use rust_psbt.Output.{Output, validate}
use rust_psbt.Output as OutputMap
use rust_psbt.Output.Encoder.{encode}
use rust_psbt.Output.Decoder.{output_decoder}
use rust_psbt.Output.Decoder.Stage.{from_key}
use rust_psbt.Output.Decoder.Ends.{ReadsOutputs}
use rust_psbt.Output.RoundTrip.{output_decoder-Reads}
use rust_psbt.Output.RoundTrip.Entries.{IsReadBip32, IsReadProprietary, IsReadUnknown}
use rust_psbt.Output.RoundTrip.Sequence.{IsReadable}
use rust_psbt.Examples.Wire.{
  codecs, encoders, one-IsFramed, measured-IsFramed, push_one, end_one, take_bytes, push_some,
  end_some, first_byte, push_and_one, split_last,
}

-- An output with a key source, a proprietary and an unknown pair.
abbrev told : Output
unfolding OutputMap.new
told = record (OutputMap.new (record { value = 9; script_pubkey = 6 ∷ 6 ∷ [] })) {
  bip32_derivations = (5, (2, 4 ∷ 7 ∷ [])) ∷ [];
  proprietaries = (record { prefix = 3 ∷ []; subtype = 4; key = 9 ∷ [] }, 8 ∷ []) ∷ [];
  unknowns = (record { type_value = 0x30; key = 1 ∷ [] }, 8 ∷ []) ∷ [];
}

amount_key : ReadsKey codecs encoders (record { type_value = 3; key = [] }) (3 ∷ [])
unfolding push_one end_one take_bytes push_some end_some first_byte value_default push_prefix
    push_value after_prefix value_push_bytes declared_length value_end
amount_key = record {
  first = 1;
  others = 3 ∷ [];
  starts = refl;
  no_separator = refl;
  body = λ rest. (_, refl, refl);
  body_first = 3;
  body_others = [];
  body_starts = refl;
  pushed = _;
  push = refl;
  keytype = refl;
  key_data = refl;
}

script_key : ReadsKey codecs encoders (record { type_value = 4; key = [] }) (4 ∷ [])
unfolding push_one end_one take_bytes push_some end_some first_byte value_default push_prefix
    push_value after_prefix value_push_bytes declared_length value_end
script_key = record {
  first = 1;
  others = 4 ∷ [];
  starts = refl;
  no_separator = refl;
  body = λ rest. (_, refl, refl);
  body_first = 4;
  body_others = [];
  body_starts = refl;
  pushed = _;
  push = refl;
  keytype = refl;
  key_data = refl;
}

bip32_key : ReadsKey codecs encoders (record { type_value = 2; key = 5 ∷ [] }) (2 ∷ 5 ∷ [])
unfolding push_one end_one take_bytes push_some end_some first_byte value_default push_prefix
    push_value after_prefix value_push_bytes declared_length value_end
bip32_key = record {
  first = 2;
  others = 2 ∷ 5 ∷ [];
  starts = refl;
  no_separator = refl;
  body = λ rest. (_, refl, refl);
  body_first = 2;
  body_others = 5 ∷ [];
  body_starts = refl;
  pushed = _;
  push = refl;
  keytype = refl;
  key_data = refl;
}

unknown_key : ReadsKey codecs encoders (record { type_value = 0x30; key = 1 ∷ [] }) (0x30 ∷ 1 ∷ [])
unfolding push_one end_one take_bytes push_some end_some first_byte value_default push_prefix
    push_value after_prefix value_push_bytes declared_length value_end
unknown_key = record {
  first = 2;
  others = 0x30 ∷ 1 ∷ [];
  starts = refl;
  no_separator = refl;
  body = λ rest. (_, refl, refl);
  body_first = 0x30;
  body_others = 1 ∷ [];
  body_starts = refl;
  pushed = _;
  push = refl;
  keytype = refl;
  key_data = refl;
}

proprietary_key :
    ReadsKey codecs encoders
      (record { type_value = 0xFC; key = 1 ∷ 3 ∷ 4 ∷ 9 ∷ [] })
      (0xFC ∷ 1 ∷ 3 ∷ 4 ∷ 9 ∷ [])
unfolding push_one end_one take_bytes push_some end_some first_byte value_default push_prefix
    push_value after_prefix value_push_bytes declared_length value_end
proprietary_key = record {
  first = 5;
  others = 0xFC ∷ 1 ∷ 3 ∷ 4 ∷ 9 ∷ [];
  starts = refl;
  no_separator = refl;
  body = λ rest. (_, refl, refl);
  body_first = 0xFC;
  body_others = 1 ∷ 3 ∷ 4 ∷ 9 ∷ [];
  body_starts = refl;
  pushed = _;
  push = refl;
  keytype = refl;
  key_data = refl;
}

amount_value : Reads (framed codecs codecs.amount) 9 (1 ∷ 9 ∷ [])
unfolding push_one end_one take_bytes push_some end_some first_byte value_default push_prefix
    push_value after_prefix value_push_bytes declared_length value_end
amount_value =
    framed-Reads codecs encoders codecs.amount 9 (9 ∷ [])
      (record { size = λ rest. (_, refl, refl); value = λ rest. (_, refl, refl) })

script_value : Reads codecs.script (6 ∷ 6 ∷ []) (2 ∷ 6 ∷ 6 ∷ [])
unfolding push_one end_one take_bytes push_some end_some first_byte value_default push_prefix
    push_value after_prefix value_push_bytes declared_length value_end
script_value = λ rest. (_, refl, refl)

key_source_value : Reads codecs.key_source (2, 4 ∷ 7 ∷ []) (2 ∷ 4 ∷ 7 ∷ [])
unfolding push_one end_one take_bytes push_some end_some first_byte value_default push_prefix
    push_value after_prefix value_push_bytes declared_length value_end
key_source_value = λ rest. (_, refl, refl)

unknown_value : Reads codecs.byte_vec (8 ∷ []) (1 ∷ 8 ∷ [])
unfolding push_one end_one take_bytes push_some end_some first_byte value_default push_prefix
    push_value after_prefix value_push_bytes declared_length value_end
unknown_value = λ rest. (_, refl, refl)

told_entry : IsReadBip32 codecs encoders (5, (2, 4 ∷ 7 ∷ []))
unfolding first_byte
told_entry = record { key = bip32_key; value = key_source_value; parsed = refl }

told_proprietary :
    IsReadProprietary codecs encoders
      (record { prefix = 3 ∷ []; subtype = 4; key = 9 ∷ [] }, 8 ∷ [])
unfolding to_key encode_proprietary push_and_one take_bytes end_some split_last
told_proprietary = record {
  key = proprietary_key;
  value = unknown_value;
  prefix = λ rest. (_, refl, refl);
}

told_unknown : IsReadUnknown codecs encoders (record { type_value = 0x30; key = 1 ∷ [] }, 8 ∷ [])
unfolding from_key
told_unknown = record { key = unknown_key; value = unknown_value; unknown = refl }

told-IsReadable : IsReadable codecs encoders told
unfolding OutputMap.new validate
told-IsReadable = record {
  well_formed = record {
    bip32_derivations = (tt, tt);
    tap_key_origins = tt;
    proprietaries = (tt, tt);
    unknowns = (tt, tt);
  };
  valid = refl;
  amount = record { key = amount_key; value = amount_value };
  script = record { key = script_key; value = script_value };
  redeem_script = tt;
  witness_script = tt;
  tap_internal_key = tt;
  tap_tree = tt;
  sp_v0_info = tt;
  sp_v0_label = tt;
  bip32_derivations = (told_entry, tt);
  tap_key_origins = tt;
  proprietaries = (told_proprietary, tt);
  unknowns = (told_unknown, tt);
}

reads_outputs : ReadsOutputs codecs
reads_outputs = record {
  compact_size = one-IsFramed _;
  script = measured-IsFramed _;
  key_source = measured-IsFramed _;
  tap_tree = measured-IsFramed _;
  tap_key_origin = measured-IsFramed _;
  byte_vec = measured-IsFramed _;
  amount = (one-IsFramed {A = ℕ} (λ b. b)).shrinks;
  xonly_public_key = (one-IsFramed {A = ℕ} (λ b. b)).shrinks;
  sp_v0_info = (one-IsFramed {A = ℕ} (λ b. b)).shrinks;
  sp_v0_label = (one-IsFramed {A = ℕ} (λ b. b)).shrinks;
}

output_decoder-Reads_example : Reads (output_decoder codecs) told (encode encoders told)
output_decoder-Reads_example =
    output_decoder-Reads codecs encoders told reads_outputs told-IsReadable
