-- ===== src/Output/RoundTrip/Sequence.antt =====
-- The pairs of an output map, read back one after the other into the fields.
use rust_psbt.Prelude.{◌≡◌, some, List, [], ◌∷◌, ◌++◌, flat_map, All, ok}
use mathlib.Core.List.{append_assoc}
use rust_psbt.Primitives.{Byte}
use rust_psbt.Consts.{
  psbt_separator, psbt_out_amount, psbt_out_script, psbt_out_redeem_script, psbt_out_witness_script,
  psbt_out_bip32_derivation, psbt_out_tap_bip32_derivation, psbt_out_tap_internal_key,
  psbt_out_tap_tree, psbt_out_sp_v0_info, psbt_out_sp_v0_label,
}
use rust_psbt.Codecs.{Codecs, Encoders}
use rust_psbt.Decoding.Runs.{Runs, Runs-refl, Runs-trans}
use rust_psbt.Framing.{framed, key_value_iter}
use rust_psbt.Keys.Codec.{proprietary_pair, unknown_pair}
use rust_psbt.Output.{Output, IsWellFormed, validate}
use rust_psbt.Output.Decoder.Stage.{decoding_separator}
use rust_psbt.Output.Decoder.{OutputDecoder, default, round}
use rust_psbt.Output.RoundTrip.Singles.{
  OnSome, option_pair, IsReadSingle, read_option, read_amount, read_script, read_redeem_script,
  read_witness_script, read_tap_internal_key, read_tap_tree, read_sp_v0_info, read_sp_v0_label,
}
use rust_psbt.Output.RoundTrip.Entries.{
  IsReadBip32, IsReadTapKeyOrigin, IsReadProprietary, IsReadUnknown, read_bip32s,
  read_tap_key_origins, read_proprietaries, read_unknowns,
}
use rust_psbt.Output.RoundTrip.Written.{
  script_field, pair, unknowns_on, proprietaries_on, sp_v0_label_on, sp_v0_info_on,
  tap_key_origins_on, tap_tree_on, tap_internal_key_on, bip32_derivations_on, witness_script_on,
  redeem_script_on, script_on,
}

module _ (c : Codecs) (e : Encoders) where
  -- A valid output whose pairs are each read back by the decoders of keys and values.
  pub record IsReadable (o : Output) : Type 0 where
    pub well_formed : IsWellFormed o
    pub valid : validate o ≡ ok tt
    pub amount : IsReadSingle c e psbt_out_amount (framed c c.amount) o.amount (e.amount o.amount)
    pub script :
        OnSome (λ a. IsReadSingle c e psbt_out_script c.script a (e.script a)) (script_field e o)
    pub redeem_script :
        OnSome
          (λ a. IsReadSingle c e psbt_out_redeem_script c.script a (e.script a))
          o.redeem_script
    pub witness_script :
        OnSome
          (λ a. IsReadSingle c e psbt_out_witness_script c.script a (e.script a))
          o.witness_script
    pub tap_internal_key :
        OnSome
          (λ a.
            IsReadSingle c e psbt_out_tap_internal_key
              (framed c c.xonly_public_key)
              a
              (e.xonly_public_key a))
          o.tap_internal_key
    pub tap_tree :
        OnSome (λ a. IsReadSingle c e psbt_out_tap_tree c.tap_tree a (e.tap_tree a)) o.tap_tree
    pub sp_v0_info :
        OnSome
          (λ a. IsReadSingle c e psbt_out_sp_v0_info (framed c c.sp_v0_info) a (e.sp_v0_info a))
          o.sp_v0_info
    pub sp_v0_label :
        OnSome
          (λ a. IsReadSingle c e psbt_out_sp_v0_label (framed c c.sp_v0_label) a (e.sp_v0_label a))
          o.sp_v0_label
    pub bip32_derivations : All (IsReadBip32 c e) o.bip32_derivations
    pub tap_key_origins : All (IsReadTapKeyOrigin c e) o.tap_key_origins
    pub proprietaries : All (IsReadProprietary c e) o.proprietaries
    pub unknowns : All (IsReadUnknown c e) o.unknowns

  -- One more field is read, and the rest after it.
  read_then :
      (d d' d'' : OutputDecoder c) (code more rest bytes : List Byte)
      → ((next : List Byte) → Runs (round c) d (code ++ next) d' next)
      → Runs (round c) d' (more ++ rest) d'' bytes
      → Runs (round c) d ((code ++ more) ++ rest) d'' bytes
  read_then d d' d'' code more rest bytes first later = rw (append_assoc code more rest) (
      Runs-trans (round c) d (code ++ (more ++ rest)) d' (more ++ rest) d'' bytes
        (first (more ++ rest)) later)

  module _ (o : Output) where
    -- The decoder once it has read every pair.
    abbrev pub full : OutputDecoder c
    full = record {
      stage = decoding_separator;
      amount = some o.amount;
      script_pubkey = script_field e o;
      redeem_script = o.redeem_script;
      witness_script = o.witness_script;
      bip32_derivations = o.bip32_derivations;
      tap_internal_key = o.tap_internal_key;
      tap_tree = o.tap_tree;
      tap_key_origins = o.tap_key_origins;
      sp_v0_info = o.sp_v0_info;
      sp_v0_label = o.sp_v0_label;
      proprietaries = o.proprietaries;
      unknowns = o.unknowns;
    }

    -- The decoder after each of the pairs, in the order in which they are written.
    abbrev after_amount : OutputDecoder c
    after_amount = record (default c) { amount = some o.amount }

    abbrev after_script_pubkey : OutputDecoder c
    after_script_pubkey = record (after_amount) { script_pubkey = script_field e o }

    abbrev after_redeem_script : OutputDecoder c
    after_redeem_script = record (after_script_pubkey) { redeem_script = o.redeem_script }

    abbrev after_witness_script : OutputDecoder c
    after_witness_script = record (after_redeem_script) { witness_script = o.witness_script }

    abbrev after_bip32_derivations : OutputDecoder c
    after_bip32_derivations = record (after_witness_script) {
      bip32_derivations = o.bip32_derivations;
    }

    abbrev after_tap_internal_key : OutputDecoder c
    after_tap_internal_key = record (after_bip32_derivations) {
      tap_internal_key = o.tap_internal_key;
    }

    abbrev after_tap_tree : OutputDecoder c
    after_tap_tree = record (after_tap_internal_key) { tap_tree = o.tap_tree }

    abbrev after_tap_key_origins : OutputDecoder c
    after_tap_key_origins = record (after_tap_tree) { tap_key_origins = o.tap_key_origins }

    abbrev after_sp_v0_info : OutputDecoder c
    after_sp_v0_info = record (after_tap_key_origins) { sp_v0_info = o.sp_v0_info }

    abbrev after_sp_v0_label : OutputDecoder c
    after_sp_v0_label = record (after_sp_v0_info) { sp_v0_label = o.sp_v0_label }

    abbrev after_proprietaries : OutputDecoder c
    after_proprietaries = record (after_sp_v0_label) { proprietaries = o.proprietaries }

    abbrev after_unknowns : OutputDecoder c
    after_unknowns = record (after_proprietaries) { unknowns = o.unknowns }

    -- The pairs from a field on are read into the fields.
    module _ (h : IsReadable o) (rest : List Byte) where
      read_unknowns_on :
          Runs
            (round c)
            after_proprietaries
            ((unknowns_on e o) ++ rest)
            full
            (psbt_separator ∷ rest)
      read_unknowns_on =
          read_then after_proprietaries after_unknowns full (flat_map (unknown_pair e) o.unknowns)
            (psbt_separator ∷ []) rest (psbt_separator ∷ rest)
            (λ more.
              read_unknowns c e after_proprietaries o.unknowns more h.well_formed.unknowns
                h.unknowns)
            (Runs-refl (round c) after_unknowns (psbt_separator ∷ rest))

      read_proprietaries_on :
          Runs
            (round c)
            after_sp_v0_label
            ((proprietaries_on e o) ++ rest)
            full
            (psbt_separator ∷ rest)
      read_proprietaries_on =
          read_then after_sp_v0_label after_proprietaries full
            (flat_map (proprietary_pair e) o.proprietaries) (unknowns_on e o) rest
            (psbt_separator ∷ rest)
            (λ more.
              read_proprietaries c e after_sp_v0_label o.proprietaries more
                h.well_formed.proprietaries h.proprietaries)
            read_unknowns_on

      read_sp_v0_label_on :
          Runs
            (round c)
            after_sp_v0_info
            ((sp_v0_label_on e o) ++ rest)
            full
            (psbt_separator ∷ rest)
      read_sp_v0_label_on =
          read_then after_sp_v0_info after_sp_v0_label full
            (option_pair (pair e psbt_out_sp_v0_label e.sp_v0_label) o.sp_v0_label)
            (proprietaries_on e o) rest (psbt_separator ∷ rest)
            (λ more.
              read_option c e (λ v. record after_sp_v0_info { sp_v0_label = v }) _ _
                (λ a g more. read_sp_v0_label c e a g after_sp_v0_info more) o.sp_v0_label
                h.sp_v0_label more)
            read_proprietaries_on

      read_sp_v0_info_on :
          Runs
            (round c)
            after_tap_key_origins
            ((sp_v0_info_on e o) ++ rest)
            full
            (psbt_separator ∷ rest)
      read_sp_v0_info_on =
          read_then after_tap_key_origins after_sp_v0_info full
            (option_pair (pair e psbt_out_sp_v0_info e.sp_v0_info) o.sp_v0_info)
            (sp_v0_label_on e o) rest (psbt_separator ∷ rest)
            (λ more.
              read_option c e (λ v. record after_tap_key_origins { sp_v0_info = v }) _ _
                (λ a g more. read_sp_v0_info c e a g after_tap_key_origins more) o.sp_v0_info
                h.sp_v0_info more)
            read_sp_v0_label_on

      read_tap_key_origins_on :
          Runs
            (round c)
            after_tap_tree
            ((tap_key_origins_on e o) ++ rest)
            full
            (psbt_separator ∷ rest)
      read_tap_key_origins_on =
          read_then after_tap_tree after_tap_key_origins full
            (key_value_iter e.compact_size psbt_out_tap_bip32_derivation e.xonly_public_key
              e.tap_key_origin o.tap_key_origins)
            (sp_v0_info_on e o) rest (psbt_separator ∷ rest)
            (λ more.
              read_tap_key_origins c e after_tap_tree o.tap_key_origins more
                h.well_formed.tap_key_origins h.tap_key_origins)
            read_sp_v0_info_on

      read_tap_tree_on :
          Runs
            (round c)
            after_tap_internal_key
            ((tap_tree_on e o) ++ rest)
            full
            (psbt_separator ∷ rest)
      read_tap_tree_on =
          read_then after_tap_internal_key after_tap_tree full
            (option_pair (pair e psbt_out_tap_tree e.tap_tree) o.tap_tree) (tap_key_origins_on e o)
            rest (psbt_separator ∷ rest)
            (λ more.
              read_option c e (λ v. record after_tap_internal_key { tap_tree = v }) _ _
                (λ a g more. read_tap_tree c e a g after_tap_internal_key more) o.tap_tree
                h.tap_tree more)
            read_tap_key_origins_on

      read_tap_internal_key_on :
          Runs
            (round c)
            after_bip32_derivations
            ((tap_internal_key_on e o) ++ rest)
            full
            (psbt_separator ∷ rest)
      read_tap_internal_key_on =
          read_then after_bip32_derivations after_tap_internal_key full
            (option_pair (pair e psbt_out_tap_internal_key e.xonly_public_key) o.tap_internal_key)
            (tap_tree_on e o) rest (psbt_separator ∷ rest)
            (λ more.
              read_option c e (λ v. record after_bip32_derivations { tap_internal_key = v }) _ _
                (λ a g more. read_tap_internal_key c e a g after_bip32_derivations more)
                o.tap_internal_key h.tap_internal_key more)
            read_tap_tree_on

      read_bip32_derivations_on :
          Runs
            (round c)
            after_witness_script
            ((bip32_derivations_on e o) ++ rest)
            full
            (psbt_separator ∷ rest)
      read_bip32_derivations_on =
          read_then after_witness_script after_bip32_derivations full
            (key_value_iter e.compact_size psbt_out_bip32_derivation e.public_key e.key_source
              o.bip32_derivations)
            (tap_internal_key_on e o) rest (psbt_separator ∷ rest)
            (λ more.
              read_bip32s c e after_witness_script o.bip32_derivations more
                h.well_formed.bip32_derivations h.bip32_derivations)
            read_tap_internal_key_on

      read_witness_script_on :
          Runs
            (round c)
            after_redeem_script
            ((witness_script_on e o) ++ rest)
            full
            (psbt_separator ∷ rest)
      read_witness_script_on =
          read_then after_redeem_script after_witness_script full
            (option_pair (pair e psbt_out_witness_script e.script) o.witness_script)
            (bip32_derivations_on e o) rest (psbt_separator ∷ rest)
            (λ more.
              read_option c e (λ v. record after_redeem_script { witness_script = v }) _ _
                (λ a g more. read_witness_script c e a g after_redeem_script more) o.witness_script
                h.witness_script more)
            read_bip32_derivations_on

      read_redeem_script_on :
          Runs
            (round c)
            after_script_pubkey
            ((redeem_script_on e o) ++ rest)
            full
            (psbt_separator ∷ rest)
      read_redeem_script_on =
          read_then after_script_pubkey after_redeem_script full
            (option_pair (pair e psbt_out_redeem_script e.script) o.redeem_script)
            (witness_script_on e o) rest (psbt_separator ∷ rest)
            (λ more.
              read_option c e (λ v. record after_script_pubkey { redeem_script = v }) _ _
                (λ a g more. read_redeem_script c e a g after_script_pubkey more) o.redeem_script
                h.redeem_script more)
            read_witness_script_on

      read_script_pubkey_on :
          Runs (round c) after_amount ((script_on e o) ++ rest) full (psbt_separator ∷ rest)
      read_script_pubkey_on =
          read_then after_amount after_script_pubkey full
            (option_pair (pair e psbt_out_script e.script) (script_field e o))
            (redeem_script_on e o) rest (psbt_separator ∷ rest)
            (λ more.
              read_option c e (λ v. record after_amount { script_pubkey = v }) _ _
                (λ a g more. read_script c e a g after_amount more) (script_field e o) h.script
                more)
            read_redeem_script_on

      pub read_amount_on :
          Runs
            (round c)
            (default c)
            ((pair e psbt_out_amount e.amount o.amount ++ script_on e o) ++ rest)
            full
            (psbt_separator ∷ rest)
      read_amount_on =
          read_then (default c) after_amount full (pair e psbt_out_amount e.amount o.amount)
            (script_on e o) rest (psbt_separator ∷ rest)
            (λ more. read_amount c e o.amount h.amount (default c) more) read_script_pubkey_on
