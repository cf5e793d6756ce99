-- ===== src/Output/RoundTrip/Pairs.antt =====
-- One key-value pair of an output map, read back in two rounds of the decoder.
use rust_psbt.Prelude.{◌≡◌, refl, arith, List, [], ◌∷◌, ◌++◌, false, ◌==◌, ok}
use rust_psbt.Primitives.{Byte}
use rust_psbt.Consts.{psbt_separator}
use rust_psbt.Codecs.{Codecs, Encoders}
use rust_psbt.Decoding.{Decoder, continue, ready, round_of, advance}
use rust_psbt.Decoding.Contracts.{Reads}
use rust_psbt.Decoding.Fields.{push_in}
use rust_psbt.Decoding.Runs.{
  Runs, Runs-two, prefixed, ReadsKey, key_decoder-Reads, from_sized_kv-prefixed,
}
use rust_psbt.Framing.{from_sized_kv}
use rust_psbt.Keys.{Key}
use rust_psbt.Keys.Codec.{key_decoder}
use rust_psbt.Output.Decoder.Stage.{
  DecoderStage, OutputDecodeError, decoding_separator, decoding_key, from_key, push_stage,
}
use rust_psbt.Output.Decoder.{
  OutputDecoder, at_separator, separator_round, push_round, finish, round,
}

module _ (c : Codecs) (e : Encoders) where
  -- What a fresh decoder makes of an encoding, as the decoder of a stage.
  push_in-Reads :
      {A S E : Type 0} (dec : Decoder A) (stage : dec.State → S) (error : dec.Error → E) (a : A)
      (code rest : List Byte) (s : dec.State)
      → dec.push_bytes dec.default (code ++ rest)
        ≡ ok (record { decoder = s; rest = rest; status = ready })
      → push_in dec stage error dec.default (code ++ rest)
        ≡ ok (record { decoder = stage s; rest = rest; status = ready })
  unfolding push_in
  push_in-Reads dec stage error a code rest s pushed = rw pushed refl

  -- A byte that is not the separator begins a key.
  at_key :
      (d : OutputDecoder c) (b : Byte) (bytes : List Byte)
      → (b == psbt_separator) ≡ false
      → at_separator c d (b ∷ bytes)
        ≡ ok (continue (record d { stage = decoding_key (key_decoder c).default }) (b ∷ bytes))
  unfolding at_separator
  at_key d b bytes other = rw other refl

  at_key_code :
      (d : OutputDecoder c) (code rest : List Byte) (b : Byte) (others : List Byte)
      → code ≡ b ∷ others
      → (b == psbt_separator) ≡ false
      → at_separator c d (code ++ rest)
        ≡ ok (continue (record d { stage = decoding_key (key_decoder c).default }) (code ++ rest))
  at_key_code d [] rest b others starts other = absurd (ground arith)
  at_key_code d (b' ∷ code) rest b others starts other =
      at_key d b' (code ++ rest) (ground (arith, starts, other))

  -- The round that reads the key.
  key_round :
      (key : Key) (kcode : List Byte) (stage : DecoderStage c)
      → ReadsKey c e key kcode
      → from_key c key ≡ ok stage
      → (d : OutputDecoder c) (rest : List Byte)
      → round c (record d { stage = decoding_separator }) (prefixed e kcode ++ rest)
        ≡ ok (continue (record d { stage = stage }) rest)
  unfolding round round_of separator_round push_round push_stage advance finish
  key_round key kcode stage k chosen d rest =
      let (s, pushed, ended) = key_decoder-Reads c e key kcode k rest in
      let read : push_in {S = DecoderStage c} {E = OutputDecodeError c} (key_decoder c) decoding_key
            OutputDecodeError.key_decode (key_decoder c).default (prefixed e kcode ++ rest)
          ≡ ok (record { decoder = decoding_key s; rest = rest; status = ready }) =
        push_in-Reads (key_decoder c) decoding_key OutputDecodeError.key_decode key
          (prefixed e kcode) rest s pushed in
      rw
        (
          at_key_code (record d { stage = decoding_separator }) (prefixed e kcode) rest k.first
              k.others k.starts k.no_separator,
          read,
          ended,
          chosen,
        )
        refl

  -- The round that reads the value.
  value_round :
      {A : Type 0} (dec : Decoder A) (stage : dec.State → DecoderStage c)
      (error : dec.Error → OutputDecodeError c) (a : A) (vcode : List Byte)
      → Reads dec a vcode
      → ((s : dec.State) (bytes : List Byte)
          → push_stage c (stage s) bytes ≡ push_in dec stage error s bytes)
      → ((s : dec.State) (d : OutputDecoder c) (bytes : List Byte)
          → separator_round c (stage s) d bytes ≡ ok (continue d bytes))
      → (d d' : OutputDecoder c) (rest : List Byte)
      → ((s : dec.State)
          → dec.end s ≡ ok a
          → finish c (stage s) (record d { stage = stage s }) rest ≡ ok (continue d' rest))
      → round c (record d { stage = stage dec.default }) (vcode ++ rest) ≡ ok (continue d' rest)
  unfolding round round_of push_round advance
  value_round dec stage error a vcode reads pushes inside d d' rest finishes =
      let (s, pushed, ended) = reads rest in
      let pushed' = push_in-Reads dec stage error a vcode rest s pushed in
      rw
        (
          inside dec.default (record d { stage = stage dec.default }) (vcode ++ rest),
          pushes dec.default (vcode ++ rest),
          pushed',
        )
        (finishes s ended)

  -- Both rounds.
  pub read_pair :
      {A : Type 0} (dec : Decoder A) (stage : dec.State → DecoderStage c)
      (error : dec.Error → OutputDecodeError c) (key : Key) (a : A) (kcode vcode : List Byte)
      → ReadsKey c e key kcode
      → Reads dec a (prefixed e vcode)
      → from_key c key ≡ ok (stage dec.default)
      → ((s : dec.State) (bytes : List Byte)
          → push_stage c (stage s) bytes ≡ push_in dec stage error s bytes)
      → ((s : dec.State) (d : OutputDecoder c) (bytes : List Byte)
          → separator_round c (stage s) d bytes ≡ ok (continue d bytes))
      → (d d' : OutputDecoder c) (rest : List Byte)
      → ((s : dec.State)
          → dec.end s ≡ ok a
          → finish c (stage s) (record d { stage = stage s }) rest ≡ ok (continue d' rest))
      → Runs
          (round c)
          (record d { stage = decoding_separator })
          (from_sized_kv e.compact_size kcode vcode ++ rest)
          d'
          rest
  read_pair dec stage error key a kcode vcode k v chosen pushes inside d d' rest finishes =
      rw (from_sized_kv-prefixed c e kcode vcode rest) (
        Runs-two (round c) (record d { stage = decoding_separator }) _
          (record d { stage = stage dec.default }) (prefixed e vcode ++ rest) d' rest
          (key_round key kcode (stage dec.default) k chosen d (prefixed e vcode ++ rest))
          (value_round dec stage error a (prefixed e vcode) v pushes inside d d' rest finishes))
