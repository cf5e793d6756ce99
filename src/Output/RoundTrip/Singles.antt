-- ===== src/Output/RoundTrip/Singles.antt =====
-- The pairs of an output map that hold one value, read back into their fields.
use rust_psbt.Prelude.{ℕ, refl, List, [], ◌++◌, Option, none, some}
use rust_psbt.Primitives.{Byte, ScriptBuf, XOnlyPublicKey}
use rust_psbt.Consts.{
  psbt_out_amount, psbt_out_script, psbt_out_redeem_script, psbt_out_witness_script,
  psbt_out_tap_internal_key, psbt_out_tap_tree, psbt_out_sp_v0_info, psbt_out_sp_v0_label,
}
use rust_psbt.Codecs.{Codecs, Encoders}
use rust_psbt.Decoding.{Decoder}
use rust_psbt.Decoding.Contracts.{Reads}
use rust_psbt.Decoding.Fields.{set_once}
use rust_psbt.Decoding.Runs.{Runs, Runs-refl, prefixed, ReadsKey}
use rust_psbt.Framing.{framed, from_sized_kv}
use rust_psbt.Keys.{Key}
use rust_psbt.Output.{SpV0Info}
use rust_psbt.Output.Decoder.Stage.{
  OutputDecodeError, decoding_separator, decoding_amount, decoding_script, decoding_redeem_script,
  decoding_witness_script, decoding_tap_internal_key, decoding_tap_tree, decoding_sp_v0_info,
  decoding_sp_v0_label, from_key, push_stage,
}
use rust_psbt.Output.Decoder.{OutputDecoder, separator_round, finish, round}
use rust_psbt.Output.RoundTrip.Pairs.{read_pair}

-- A key with a type and no data.
abbrev pub single : ℕ → Key
single t = record { type_value = t; key = [] }

abbrev pub OnSome : {A : Type 0} → (A → Type 0) → Option A → Type 0
OnSome P none = Unit
OnSome P (some a) = P a

-- The bytes of a field that may be missing.
abbrev pub option_pair : {A : Type 0} → (A → List Byte) → Option A → List Byte
option_pair pair none = []
option_pair pair (some a) = pair a

module _ (c : Codecs) (e : Encoders) where
  -- The pair of a field is read back by the decoders of keys and of its value.
  pub record IsReadSingle (t : ℕ) {A : Type 0} (d : Decoder A) (a : A) (code : List Byte)
      : Type 0 where
    pub key : ReadsKey c e (single t) (e.compact_size t)
    pub value : Reads d a (prefixed e code)

  pub read_amount :
      (a : ℕ)
      → IsReadSingle psbt_out_amount (framed c c.amount) a (e.amount a)
      → (d : OutputDecoder c) (rest : List Byte)
      → Runs
          (round c)
          (record d { amount = none; stage = decoding_separator })
          (from_sized_kv e.compact_size (e.compact_size psbt_out_amount) (e.amount a) ++ rest)
          (record d { amount = some a; stage = decoding_separator })
          rest
  unfolding from_key push_stage separator_round finish set_once
  read_amount a h d rest =
      read_pair c e (framed c c.amount) (decoding_amount (single psbt_out_amount))
        OutputDecodeError.amount (single psbt_out_amount) a _ _ h.key h.value refl (λ s bytes. refl)
        (λ s d bytes. refl) (record d { amount = none })
        (record d { amount = some a; stage = decoding_separator }) rest (λ s ended. rw ended refl)

  pub read_script :
      (a : ScriptBuf)
      → IsReadSingle psbt_out_script c.script a (e.script a)
      → (d : OutputDecoder c) (rest : List Byte)
      → Runs
          (round c)
          (record d { script_pubkey = none; stage = decoding_separator })
          (from_sized_kv e.compact_size (e.compact_size psbt_out_script) (e.script a) ++ rest)
          (record d { script_pubkey = some a; stage = decoding_separator })
          rest
  unfolding from_key push_stage separator_round finish set_once
  read_script a h d rest =
      read_pair c e c.script (decoding_script (single psbt_out_script)) OutputDecodeError.script
        (single psbt_out_script) a _ _ h.key h.value refl (λ s bytes. refl) (λ s d bytes. refl)
        (record d { script_pubkey = none })
        (record d { script_pubkey = some a; stage = decoding_separator }) rest
        (λ s ended. rw ended refl)

  pub read_redeem_script :
      (a : ScriptBuf)
      → IsReadSingle psbt_out_redeem_script c.script a (e.script a)
      → (d : OutputDecoder c) (rest : List Byte)
      → Runs
          (round c)
          (record d { redeem_script = none; stage = decoding_separator })
          (from_sized_kv e.compact_size (e.compact_size psbt_out_redeem_script) (e.script a)
            ++ rest)
          (record d { redeem_script = some a; stage = decoding_separator })
          rest
  unfolding from_key push_stage separator_round finish set_once
  read_redeem_script a h d rest =
      read_pair c e c.script (decoding_redeem_script (single psbt_out_redeem_script))
        OutputDecodeError.redeem_script (single psbt_out_redeem_script) a _ _ h.key h.value refl
        (λ s bytes. refl) (λ s d bytes. refl) (record d { redeem_script = none })
        (record d { redeem_script = some a; stage = decoding_separator }) rest
        (λ s ended. rw ended refl)

  pub read_witness_script :
      (a : ScriptBuf)
      → IsReadSingle psbt_out_witness_script c.script a (e.script a)
      → (d : OutputDecoder c) (rest : List Byte)
      → Runs
          (round c)
          (record d { witness_script = none; stage = decoding_separator })
          (from_sized_kv e.compact_size (e.compact_size psbt_out_witness_script) (e.script a)
            ++ rest)
          (record d { witness_script = some a; stage = decoding_separator })
          rest
  unfolding from_key push_stage separator_round finish set_once
  read_witness_script a h d rest =
      read_pair c e c.script (decoding_witness_script (single psbt_out_witness_script))
        OutputDecodeError.witness_script (single psbt_out_witness_script) a _ _ h.key h.value refl
        (λ s bytes. refl) (λ s d bytes. refl) (record d { witness_script = none })
        (record d { witness_script = some a; stage = decoding_separator }) rest
        (λ s ended. rw ended refl)

  pub read_tap_internal_key :
      (a : XOnlyPublicKey)
      → IsReadSingle psbt_out_tap_internal_key
          (framed c c.xonly_public_key)
          a
          (e.xonly_public_key a)
      → (d : OutputDecoder c) (rest : List Byte)
      → Runs
          (round c)
          (record d { tap_internal_key = none; stage = decoding_separator })
          (from_sized_kv e.compact_size
              (e.compact_size psbt_out_tap_internal_key)
              (e.xonly_public_key a)
            ++ rest)
          (record d { tap_internal_key = some a; stage = decoding_separator })
          rest
  unfolding from_key push_stage separator_round finish set_once
  read_tap_internal_key a h d rest =
      read_pair c e (framed c c.xonly_public_key)
        (decoding_tap_internal_key (single psbt_out_tap_internal_key))
        OutputDecodeError.tap_internal_key (single psbt_out_tap_internal_key) a _ _ h.key h.value
        refl (λ s bytes. refl) (λ s d bytes. refl) (record d { tap_internal_key = none })
        (record d { tap_internal_key = some a; stage = decoding_separator }) rest
        (λ s ended. rw ended refl)

  pub read_tap_tree :
      (a : ℕ)
      → IsReadSingle psbt_out_tap_tree c.tap_tree a (e.tap_tree a)
      → (d : OutputDecoder c) (rest : List Byte)
      → Runs
          (round c)
          (record d { tap_tree = none; stage = decoding_separator })
          (from_sized_kv e.compact_size (e.compact_size psbt_out_tap_tree) (e.tap_tree a) ++ rest)
          (record d { tap_tree = some a; stage = decoding_separator })
          rest
  unfolding from_key push_stage separator_round finish set_once
  read_tap_tree a h d rest =
      read_pair c e c.tap_tree (decoding_tap_tree (single psbt_out_tap_tree))
        OutputDecodeError.tap_tree (single psbt_out_tap_tree) a _ _ h.key h.value refl
        (λ s bytes. refl) (λ s d bytes. refl) (record d { tap_tree = none })
        (record d { tap_tree = some a; stage = decoding_separator }) rest (λ s ended. rw ended refl)

  pub read_sp_v0_info :
      (a : SpV0Info)
      → IsReadSingle psbt_out_sp_v0_info (framed c c.sp_v0_info) a (e.sp_v0_info a)
      → (d : OutputDecoder c) (rest : List Byte)
      → Runs
          (round c)
          (record d { sp_v0_info = none; stage = decoding_separator })
          (from_sized_kv e.compact_size (e.compact_size psbt_out_sp_v0_info) (e.sp_v0_info a)
            ++ rest)
          (record d { sp_v0_info = some a; stage = decoding_separator })
          rest
  unfolding from_key push_stage separator_round finish set_once
  read_sp_v0_info a h d rest =
      read_pair c e (framed c c.sp_v0_info) (decoding_sp_v0_info (single psbt_out_sp_v0_info))
        OutputDecodeError.sp_v0_info (single psbt_out_sp_v0_info) a _ _ h.key h.value refl
        (λ s bytes. refl) (λ s d bytes. refl) (record d { sp_v0_info = none })
        (record d { sp_v0_info = some a; stage = decoding_separator }) rest
        (λ s ended. rw ended refl)

  pub read_sp_v0_label :
      (a : ℕ)
      → IsReadSingle psbt_out_sp_v0_label (framed c c.sp_v0_label) a (e.sp_v0_label a)
      → (d : OutputDecoder c) (rest : List Byte)
      → Runs
          (round c)
          (record d { sp_v0_label = none; stage = decoding_separator })
          (from_sized_kv e.compact_size (e.compact_size psbt_out_sp_v0_label) (e.sp_v0_label a)
            ++ rest)
          (record d { sp_v0_label = some a; stage = decoding_separator })
          rest
  unfolding from_key push_stage separator_round finish set_once
  read_sp_v0_label a h d rest =
      read_pair c e (framed c c.sp_v0_label) (decoding_sp_v0_label (single psbt_out_sp_v0_label))
        OutputDecodeError.sp_v0_label (single psbt_out_sp_v0_label) a _ _ h.key h.value refl
        (λ s bytes. refl) (λ s d bytes. refl) (record d { sp_v0_label = none })
        (record d { sp_v0_label = some a; stage = decoding_separator }) rest
        (λ s ended. rw ended refl)

  -- A field that may be missing is read back if its pair is, when it is there.
  pub read_option :
      {A : Type 0} (put : Option A → OutputDecoder c) (pair : A → List Byte) (IsRead : A → Type 0)
      → ((a : A)
          → IsRead a
          → (rest : List Byte) → Runs (round c) (put none) (pair a ++ rest) (put (some a)) rest)
      → (v : Option A) → OnSome IsRead v
      → (rest : List Byte) → Runs (round c) (put none) (option_pair pair v ++ rest) (put v) rest
  read_option put pair IsRead reads none h rest = Runs-refl (round c) (put none) rest
  read_option put pair IsRead reads (some a) h rest = reads a h rest
