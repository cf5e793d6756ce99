-- ===== src/Output/RoundTrip/Written.antt =====
-- The bytes of an output map are its pairs in the order of the fields, and the separator.
use rust_psbt.Prelude.{
  ℕ, suc, ◌≡◌, ◌&&◌, Bool, true, false, Option, none, some, List, [], ◌∷◌, ◌++◌, flat_map, is_some,
  is_empty, ap, ◌∙◌, refl, arith, ◌≤◌,
}
use rust_psbt.Primitives.{Byte}
use rust_psbt.Consts.{
  psbt_separator, psbt_out_amount, psbt_out_script, psbt_out_redeem_script, psbt_out_witness_script,
  psbt_out_bip32_derivation, psbt_out_tap_internal_key, psbt_out_tap_tree,
  psbt_out_tap_bip32_derivation, psbt_out_sp_v0_info, psbt_out_sp_v0_label,
}
use rust_psbt.Codecs.{Encoders}
use rust_psbt.Encoding.{walk, drain-walk}
use rust_psbt.Framing.{from_sized_kv, key_value_iter}
use rust_psbt.Keys.Codec.{proprietary_pair, unknown_pair}
use rust_psbt.Output.{Output}
use rust_psbt.Output.Encoder.{
  EncoderState, sp_v0_label, sp_v0_info, tap_tree, tap_internal_key, witness_script, redeem_script,
  script, current_chunk, rank, unknowns_state, proprietaries_state, sp_v0_label_state,
  sp_v0_info_state, tap_key_origins_state, tap_tree_state, tap_internal_key_state,
  bip32_derivations_state, witness_script_state, redeem_script_state, script_state, amount_state,
  next_state, next_state-rank, encode,
}
use rust_psbt.Output.RoundTrip.Singles.{option_pair}

module _ (e : Encoders) where
  -- The script is not written if the output has silent payment information and no script.
  abbrev pub script_field : Output → Option (List Byte)
  script_field o = elim (is_some o.sp_v0_info && is_empty o.script_pubkey) [
    | true ↦ none
    | false ↦ some o.script_pubkey
  ]

  abbrev pub pair : {A : Type 0} → ℕ → (A → List Byte) → A → List Byte
  pair t value a = from_sized_kv e.compact_size (e.compact_size t) (value a)

  abbrev pub unknowns_on : Output → List Byte
  unknowns_on o = flat_map (unknown_pair e) o.unknowns ++ (psbt_separator ∷ [])

  abbrev pub proprietaries_on : Output → List Byte
  proprietaries_on o = flat_map (proprietary_pair e) o.proprietaries ++ unknowns_on o

  abbrev pub sp_v0_label_on : Output → List Byte
  sp_v0_label_on o =
      option_pair (pair psbt_out_sp_v0_label e.sp_v0_label) o.sp_v0_label ++ proprietaries_on o

  abbrev pub sp_v0_info_on : Output → List Byte
  sp_v0_info_on o =
      option_pair (pair psbt_out_sp_v0_info e.sp_v0_info) o.sp_v0_info ++ sp_v0_label_on o

  abbrev pub tap_key_origins_on : Output → List Byte
  tap_key_origins_on o =
      key_value_iter e.compact_size psbt_out_tap_bip32_derivation e.xonly_public_key
        e.tap_key_origin o.tap_key_origins
      ++ sp_v0_info_on o

  abbrev pub tap_tree_on : Output → List Byte
  tap_tree_on o = option_pair (pair psbt_out_tap_tree e.tap_tree) o.tap_tree ++ tap_key_origins_on o

  abbrev pub tap_internal_key_on : Output → List Byte
  tap_internal_key_on o =
      option_pair (pair psbt_out_tap_internal_key e.xonly_public_key) o.tap_internal_key
      ++ tap_tree_on o

  abbrev pub bip32_derivations_on : Output → List Byte
  bip32_derivations_on o =
      key_value_iter e.compact_size psbt_out_bip32_derivation e.public_key e.key_source
        o.bip32_derivations
      ++ tap_internal_key_on o

  abbrev pub witness_script_on : Output → List Byte
  witness_script_on o =
      option_pair (pair psbt_out_witness_script e.script) o.witness_script ++ bip32_derivations_on o

  abbrev pub redeem_script_on : Output → List Byte
  redeem_script_on o =
      option_pair (pair psbt_out_redeem_script e.script) o.redeem_script ++ witness_script_on o

  abbrev pub script_on : Output → List Byte
  script_on o = option_pair (pair psbt_out_script e.script) (script_field o) ++ redeem_script_on o

  module _ (o : Output) where
    -- The bytes from a state on.
    abbrev from : ℕ → Option EncoderState → List Byte
    from n none = []
    from n (some s) = walk (next_state e o) current_chunk n s

    from_unknowns : (n : ℕ) → from (suc (suc n)) (some (unknowns_state e o)) ≡ unknowns_on o
    unfolding walk next_state current_chunk unknowns_state
    from_unknowns n = refl

    from_option :
        {A : Type 0} (n : ℕ) (state : List Byte → EncoderState) (code : A → List Byte)
        (other : Option EncoderState) (more : List Byte)
        → from n other ≡ more
        → ((a : A) → from n (some (state (code a))) ≡ code a ++ more)
        → (v : Option A)
        → from n (elim v [ some a ↦ some (state (code a)) | none ↦ other ])
          ≡ option_pair code v ++ more
    from_option n state code other more left_out written none = left_out
    from_option n state code other more left_out written (some a) = written a

    from_proprietaries :
        (n : ℕ) → from (suc (suc (suc n))) (some (proprietaries_state e o)) ≡ proprietaries_on o
    unfolding walk next_state current_chunk proprietaries_state
    from_proprietaries n =
        ap (λ bytes. flat_map (proprietary_pair e) o.proprietaries ++ bytes) (from_unknowns n)

    from_sp_v0_label :
        (n : ℕ) → from (suc (suc (suc (suc n)))) (sp_v0_label_state e o) ≡ sp_v0_label_on o
    unfolding walk next_state current_chunk sp_v0_label_state
    from_sp_v0_label n =
        from_option (suc (suc (suc (suc n)))) sp_v0_label (pair psbt_out_sp_v0_label e.sp_v0_label)
          (some (proprietaries_state e o)) (proprietaries_on o) (from_proprietaries (suc n))
          (λ a.
            ap (λ bytes. pair psbt_out_sp_v0_label e.sp_v0_label a ++ bytes) (from_proprietaries n))
          o.sp_v0_label

    from_sp_v0_info :
        (n : ℕ) → from (suc (suc (suc (suc (suc n))))) (sp_v0_info_state e o) ≡ sp_v0_info_on o
    unfolding walk next_state current_chunk sp_v0_info_state
    from_sp_v0_info n =
        from_option (suc (suc (suc (suc (suc n))))) sp_v0_info
          (pair psbt_out_sp_v0_info e.sp_v0_info) (sp_v0_label_state e o) (sp_v0_label_on o)
          (from_sp_v0_label (suc n))
          (λ a. ap (λ bytes. pair psbt_out_sp_v0_info e.sp_v0_info a ++ bytes) (from_sp_v0_label n))
          o.sp_v0_info

    from_tap_key_origins :
        (n : ℕ)
        → from (suc (suc (suc (suc (suc (suc n)))))) (some (tap_key_origins_state e o))
          ≡ tap_key_origins_on o
    unfolding walk next_state current_chunk tap_key_origins_state
    from_tap_key_origins n =
        ap
          (λ bytes.
            key_value_iter e.compact_size psbt_out_tap_bip32_derivation e.xonly_public_key
              e.tap_key_origin o.tap_key_origins
            ++ bytes)
          (from_sp_v0_info n)

    from_tap_tree :
        (n : ℕ)
        → from (suc (suc (suc (suc (suc (suc (suc n))))))) (tap_tree_state e o) ≡ tap_tree_on o
    unfolding walk next_state current_chunk tap_tree_state
    from_tap_tree n =
        from_option (suc (suc (suc (suc (suc (suc (suc n))))))) tap_tree
          (pair psbt_out_tap_tree e.tap_tree) (some (tap_key_origins_state e o))
          (tap_key_origins_on o) (from_tap_key_origins (suc n))
          (λ a. ap (λ bytes. pair psbt_out_tap_tree e.tap_tree a ++ bytes) (from_tap_key_origins n))
          o.tap_tree

    from_tap_internal_key :
        (n : ℕ)
        → from (suc (suc (suc (suc (suc (suc (suc (suc n)))))))) (tap_internal_key_state e o)
          ≡ tap_internal_key_on o
    unfolding walk next_state current_chunk tap_internal_key_state
    from_tap_internal_key n =
        from_option (suc (suc (suc (suc (suc (suc (suc (suc n)))))))) tap_internal_key
          (pair psbt_out_tap_internal_key e.xonly_public_key) (tap_tree_state e o) (tap_tree_on o)
          (from_tap_tree (suc n))
          (λ a.
            ap (λ bytes. pair psbt_out_tap_internal_key e.xonly_public_key a ++ bytes)
              (from_tap_tree n))
          o.tap_internal_key

    from_bip32_derivations :
        (n : ℕ)
        → from
            (suc (suc (suc (suc (suc (suc (suc (suc (suc n)))))))))
            (some (bip32_derivations_state e o))
          ≡ bip32_derivations_on o
    unfolding walk next_state current_chunk bip32_derivations_state
    from_bip32_derivations n =
        ap
          (λ bytes.
            key_value_iter e.compact_size psbt_out_bip32_derivation e.public_key e.key_source
              o.bip32_derivations
            ++ bytes)
          (from_tap_internal_key n)

    from_witness_script :
        (n : ℕ)
        → from
            (suc (suc (suc (suc (suc (suc (suc (suc (suc (suc n))))))))))
            (witness_script_state e o)
          ≡ witness_script_on o
    unfolding walk next_state current_chunk witness_script_state
    from_witness_script n =
        from_option (suc (suc (suc (suc (suc (suc (suc (suc (suc (suc n)))))))))) witness_script
          (pair psbt_out_witness_script e.script) (some (bip32_derivations_state e o))
          (bip32_derivations_on o) (from_bip32_derivations (suc n))
          (λ a.
            ap (λ bytes. pair psbt_out_witness_script e.script a ++ bytes)
              (from_bip32_derivations n))
          o.witness_script

    from_redeem_script :
        (n : ℕ)
        → from
            (suc (suc (suc (suc (suc (suc (suc (suc (suc (suc (suc n)))))))))))
            (redeem_script_state e o)
          ≡ redeem_script_on o
    unfolding walk next_state current_chunk redeem_script_state
    from_redeem_script n =
        from_option (suc (suc (suc (suc (suc (suc (suc (suc (suc (suc (suc n)))))))))))
          redeem_script (pair psbt_out_redeem_script e.script) (witness_script_state e o)
          (witness_script_on o) (from_witness_script (suc n))
          (λ a.
            ap (λ bytes. pair psbt_out_redeem_script e.script a ++ bytes) (from_witness_script n))
          o.redeem_script

    from_bool :
        (n : ℕ) (state other : Option EncoderState) (code more : List Byte)
        → from n other ≡ more
        → from n state ≡ pair psbt_out_script e.script code ++ more
        → (omitted : Bool)
        → from n (elim omitted [ true ↦ other | false ↦ state ])
          ≡ option_pair
              (pair psbt_out_script e.script)
              (elim omitted [ true ↦ none | false ↦ some code ])
            ++ more
    from_bool n state other code more left_out written true = left_out
    from_bool n state other code more left_out written false = written

    from_script :
        (n : ℕ)
        → from
            (suc (suc (suc (suc (suc (suc (suc (suc (suc (suc (suc (suc n))))))))))))
            (script_state e o)
          ≡ script_on o
    unfolding walk next_state current_chunk script_state
    from_script n =
        from_bool (suc (suc (suc (suc (suc (suc (suc (suc (suc (suc (suc (suc n))))))))))))
          (some (script (pair psbt_out_script e.script o.script_pubkey))) (redeem_script_state e o)
          o.script_pubkey (redeem_script_on o) (from_redeem_script (suc n))
          (ap (λ bytes. pair psbt_out_script e.script o.script_pubkey ++ bytes)
            (from_redeem_script n))
          (is_some o.sp_v0_info && is_empty o.script_pubkey)

    rank_first : rank (amount_state e o) ≤ 12
    unfolding rank amount_state
    rank_first = omega arith

    -- The encoder writes the pairs of the fields in their order, and the separator.
    pub encode_lem : encode e o ≡ pair psbt_out_amount e.amount o.amount ++ script_on o
    unfolding encode walk next_state current_chunk amount_state
    encode_lem =
        drain-walk (next_state e o) current_chunk rank (next_state-rank e o) 12 (amount_state e o)
          rank_first
        ∙ ap (λ bytes. pair psbt_out_amount e.amount o.amount ++ bytes) (from_script 0)
