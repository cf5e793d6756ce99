-- ===== src/Input/Laws.antt =====
-- What `Input::combine` and `Input::finalize` do to a well-formed input.
use rust_psbt.Prelude.{ℕ, ◌≡◌, ap, sym, ◌∙◌, ◌↔◌, ==_refl, refl, ok, or_else, arith}
use rust_psbt.Ordered.{nat_ord, pair_ord}
use rust_psbt.BTreeMap.{get}
use rust_psbt.Keys.Laws.{
  combine_option-or_else, combine_option_self, combine_option_assoc, combine_map_self,
  combine_map_assoc, combine_map-IsSorted, get-combine_map,
}
use rust_psbt.Keys.{Key, ProprietaryKey, key_ord, proprietary_ord}
use rust_psbt.Input.{Input, IsWellFormed}
use rust_psbt.Input.Combine.{merge, combine}

pub merge_self : (i : Input) → IsWellFormed i → merge i i ≡ i
unfolding merge
merge_self i w = simp (
  combine_option_self,
  combine_map_self i.partial_sigs w.partial_sigs,
  combine_map_self i.bip32_derivations w.bip32_derivations,
  combine_map_self i.ripemd160_preimages w.ripemd160_preimages,
  combine_map_self i.sha256_preimages w.sha256_preimages,
  combine_map_self i.hash160_preimages w.hash160_preimages,
  combine_map_self i.hash256_preimages w.hash256_preimages,
  combine_map_self i.tap_script_sigs w.tap_script_sigs,
  combine_map_self i.tap_scripts w.tap_scripts,
  combine_map_self i.tap_key_origins w.tap_key_origins,
  combine_map_self i.sp_ecdh_shares w.sp_ecdh_shares,
  combine_map_self i.sp_dleq_proofs w.sp_dleq_proofs,
  combine_map_self i.proprietaries w.proprietaries,
  combine_map_self i.unknowns w.unknowns,
)

pub merge_assoc :
    (a b c : Input)
    → IsWellFormed a
    → IsWellFormed b
    → IsWellFormed c
    → merge (merge a b) c ≡ merge a (merge b c)
unfolding merge
merge_assoc a b c u v w = simp (
  combine_option_assoc,
  combine_map_assoc a.partial_sigs b.partial_sigs c.partial_sigs u.partial_sigs v.partial_sigs
      w.partial_sigs,
  combine_map_assoc a.bip32_derivations b.bip32_derivations c.bip32_derivations u.bip32_derivations
      v.bip32_derivations w.bip32_derivations,
  combine_map_assoc a.ripemd160_preimages b.ripemd160_preimages c.ripemd160_preimages
      u.ripemd160_preimages v.ripemd160_preimages w.ripemd160_preimages,
  combine_map_assoc a.sha256_preimages b.sha256_preimages c.sha256_preimages u.sha256_preimages
      v.sha256_preimages w.sha256_preimages,
  combine_map_assoc a.hash160_preimages b.hash160_preimages c.hash160_preimages u.hash160_preimages
      v.hash160_preimages w.hash160_preimages,
  combine_map_assoc a.hash256_preimages b.hash256_preimages c.hash256_preimages u.hash256_preimages
      v.hash256_preimages w.hash256_preimages,
  combine_map_assoc a.tap_script_sigs b.tap_script_sigs c.tap_script_sigs u.tap_script_sigs
      v.tap_script_sigs w.tap_script_sigs,
  combine_map_assoc a.tap_scripts b.tap_scripts c.tap_scripts u.tap_scripts v.tap_scripts
      w.tap_scripts,
  combine_map_assoc a.tap_key_origins b.tap_key_origins c.tap_key_origins u.tap_key_origins
      v.tap_key_origins w.tap_key_origins,
  combine_map_assoc a.sp_ecdh_shares b.sp_ecdh_shares c.sp_ecdh_shares u.sp_ecdh_shares
      v.sp_ecdh_shares w.sp_ecdh_shares,
  combine_map_assoc a.sp_dleq_proofs b.sp_dleq_proofs c.sp_dleq_proofs u.sp_dleq_proofs
      v.sp_dleq_proofs w.sp_dleq_proofs,
  combine_map_assoc a.proprietaries b.proprietaries c.proprietaries u.proprietaries v.proprietaries
      w.proprietaries,
  combine_map_assoc a.unknowns b.unknowns c.unknowns u.unknowns v.unknowns w.unknowns,
)

pub merge-IsWellFormed : (a b : Input) → IsWellFormed a → IsWellFormed (merge a b)
unfolding merge
merge-IsWellFormed a b w = record {
  partial_sigs = combine_map-IsSorted a.partial_sigs b.partial_sigs w.partial_sigs;
  bip32_derivations =
      combine_map-IsSorted a.bip32_derivations b.bip32_derivations w.bip32_derivations;
  ripemd160_preimages =
      combine_map-IsSorted a.ripemd160_preimages b.ripemd160_preimages w.ripemd160_preimages;
  sha256_preimages = combine_map-IsSorted a.sha256_preimages b.sha256_preimages w.sha256_preimages;
  hash160_preimages =
      combine_map-IsSorted a.hash160_preimages b.hash160_preimages w.hash160_preimages;
  hash256_preimages =
      combine_map-IsSorted a.hash256_preimages b.hash256_preimages w.hash256_preimages;
  tap_script_sigs = combine_map-IsSorted a.tap_script_sigs b.tap_script_sigs w.tap_script_sigs;
  tap_scripts = combine_map-IsSorted a.tap_scripts b.tap_scripts w.tap_scripts;
  tap_key_origins = combine_map-IsSorted a.tap_key_origins b.tap_key_origins w.tap_key_origins;
  sp_ecdh_shares = combine_map-IsSorted a.sp_ecdh_shares b.sp_ecdh_shares w.sp_ecdh_shares;
  sp_dleq_proofs = combine_map-IsSorted a.sp_dleq_proofs b.sp_dleq_proofs w.sp_dleq_proofs;
  proprietaries = combine_map-IsSorted a.proprietaries b.proprietaries w.proprietaries;
  unknowns = combine_map-IsSorted a.unknowns b.unknowns w.unknowns;
}

-- Each set field of either side is in the result: a field of one value comes from the first side
-- that sets it, an entry of a map from the second side if that has the key.
pub record IsMerge (a b c : Input) : Type 0 where
  pub previous_txid : c.previous_txid ≡ a.previous_txid
  pub spent_output_index : c.spent_output_index ≡ a.spent_output_index
  pub sequence : c.sequence ≡ or_else a.sequence b.sequence
  pub min_time : c.min_time ≡ or_else a.min_time b.min_time
  pub min_height : c.min_height ≡ or_else a.min_height b.min_height
  pub non_witness_utxo : c.non_witness_utxo ≡ or_else a.non_witness_utxo b.non_witness_utxo
  pub witness_utxo : c.witness_utxo ≡ or_else a.witness_utxo b.witness_utxo
  pub sighash_type : c.sighash_type ≡ or_else a.sighash_type b.sighash_type
  pub redeem_script : c.redeem_script ≡ or_else a.redeem_script b.redeem_script
  pub witness_script : c.witness_script ≡ or_else a.witness_script b.witness_script
  pub final_script_sig : c.final_script_sig ≡ or_else a.final_script_sig b.final_script_sig
  pub final_script_witness :
      c.final_script_witness ≡ or_else a.final_script_witness b.final_script_witness
  pub tap_key_sig : c.tap_key_sig ≡ or_else a.tap_key_sig b.tap_key_sig
  pub tap_internal_key : c.tap_internal_key ≡ or_else a.tap_internal_key b.tap_internal_key
  pub tap_merkle_root : c.tap_merkle_root ≡ or_else a.tap_merkle_root b.tap_merkle_root
  pub partial_sigs :
      (k : ℕ) → get k c.partial_sigs ≡ or_else (get k b.partial_sigs) (get k a.partial_sigs)
  pub bip32_derivations :
      (k : ℕ)
      → get k c.bip32_derivations ≡ or_else (get k b.bip32_derivations) (get k a.bip32_derivations)
  pub ripemd160_preimages :
      (k : ℕ)
      → get k c.ripemd160_preimages
        ≡ or_else (get k b.ripemd160_preimages) (get k a.ripemd160_preimages)
  pub sha256_preimages :
      (k : ℕ)
      → get k c.sha256_preimages ≡ or_else (get k b.sha256_preimages) (get k a.sha256_preimages)
  pub hash160_preimages :
      (k : ℕ)
      → get k c.hash160_preimages ≡ or_else (get k b.hash160_preimages) (get k a.hash160_preimages)
  pub hash256_preimages :
      (k : ℕ)
      → get k c.hash256_preimages ≡ or_else (get k b.hash256_preimages) (get k a.hash256_preimages)
  pub tap_script_sigs :
      (k : ℕ × ℕ)
      → get k c.tap_script_sigs ≡ or_else (get k b.tap_script_sigs) (get k a.tap_script_sigs)
  pub tap_scripts :
      (k : ℕ) → get k c.tap_scripts ≡ or_else (get k b.tap_scripts) (get k a.tap_scripts)
  pub tap_key_origins :
      (k : ℕ)
      → get k c.tap_key_origins ≡ or_else (get k b.tap_key_origins) (get k a.tap_key_origins)
  pub sp_ecdh_shares :
      (k : ℕ) → get k c.sp_ecdh_shares ≡ or_else (get k b.sp_ecdh_shares) (get k a.sp_ecdh_shares)
  pub sp_dleq_proofs :
      (k : ℕ) → get k c.sp_dleq_proofs ≡ or_else (get k b.sp_dleq_proofs) (get k a.sp_dleq_proofs)
  pub proprietaries :
      (k : ProprietaryKey)
      → get k c.proprietaries ≡ or_else (get k b.proprietaries) (get k a.proprietaries)
  pub unknowns : (k : Key) → get k c.unknowns ≡ or_else (get k b.unknowns) (get k a.unknowns)

merge-IsMerge : (a b : Input) → IsWellFormed b → IsMerge a b (merge a b)
unfolding merge
merge-IsMerge a b w = record {
  previous_txid = refl;
  spent_output_index = refl;
  sequence = combine_option-or_else a.sequence b.sequence;
  min_time = combine_option-or_else a.min_time b.min_time;
  min_height = combine_option-or_else a.min_height b.min_height;
  non_witness_utxo = combine_option-or_else a.non_witness_utxo b.non_witness_utxo;
  witness_utxo = combine_option-or_else a.witness_utxo b.witness_utxo;
  sighash_type = combine_option-or_else a.sighash_type b.sighash_type;
  redeem_script = combine_option-or_else a.redeem_script b.redeem_script;
  witness_script = combine_option-or_else a.witness_script b.witness_script;
  final_script_sig = combine_option-or_else a.final_script_sig b.final_script_sig;
  final_script_witness = combine_option-or_else a.final_script_witness b.final_script_witness;
  tap_key_sig = combine_option-or_else a.tap_key_sig b.tap_key_sig;
  tap_internal_key = combine_option-or_else a.tap_internal_key b.tap_internal_key;
  tap_merkle_root = combine_option-or_else a.tap_merkle_root b.tap_merkle_root;
  partial_sigs = λ k. get-combine_map k a.partial_sigs b.partial_sigs w.partial_sigs;
  bip32_derivations =
      λ k. get-combine_map k a.bip32_derivations b.bip32_derivations w.bip32_derivations;
  ripemd160_preimages =
      λ k. get-combine_map k a.ripemd160_preimages b.ripemd160_preimages w.ripemd160_preimages;
  sha256_preimages =
      λ k. get-combine_map k a.sha256_preimages b.sha256_preimages w.sha256_preimages;
  hash160_preimages =
      λ k. get-combine_map k a.hash160_preimages b.hash160_preimages w.hash160_preimages;
  hash256_preimages =
      λ k. get-combine_map k a.hash256_preimages b.hash256_preimages w.hash256_preimages;
  tap_script_sigs = λ k. get-combine_map k a.tap_script_sigs b.tap_script_sigs w.tap_script_sigs;
  tap_scripts = λ k. get-combine_map k a.tap_scripts b.tap_scripts w.tap_scripts;
  tap_key_origins = λ k. get-combine_map k a.tap_key_origins b.tap_key_origins w.tap_key_origins;
  sp_ecdh_shares = λ k. get-combine_map k a.sp_ecdh_shares b.sp_ecdh_shares w.sp_ecdh_shares;
  sp_dleq_proofs = λ k. get-combine_map k a.sp_dleq_proofs b.sp_dleq_proofs w.sp_dleq_proofs;
  proprietaries = λ k. get-combine_map k a.proprietaries b.proprietaries w.proprietaries;
  unknowns = λ k. get-combine_map k a.unknowns b.unknowns w.unknowns;
}

-- An input combined with itself is itself.
pub combine_self : (i : Input) → IsWellFormed i → combine i i ≡ ok i
unfolding combine
combine_self i w = rw (==_refl i.previous_txid, ==_refl i.spent_output_index, merge_self i w)

-- `combine` succeeds exactly on two inputs that spend the same outpoint.
pub combine_ok_iff :
    (a b : Input)
    → ((a.previous_txid ≡ b.previous_txid) × (a.spent_output_index ≡ b.spent_output_index))
      ↔ ((c : Input) × (combine a b ≡ ok c))
unfolding combine
combine_ok_iff a b = (λ h. (merge a b, ground arith), λ h. ground (arith, h.1))

-- A successful `combine` is the merge described by `IsMerge`, where the second input is well-formed.
pub combine-IsMerge : (a b c : Input) → IsWellFormed b → combine a b ≡ ok c → IsMerge a b c
unfolding combine
combine-IsMerge a b c w h = let e : merge a b ≡ c = ground arith in rw (← e) (merge-IsMerge a b w)

pub combine_eq_merge : (a b c : Input) → combine a b ≡ ok c → merge a b ≡ c
unfolding combine
combine_eq_merge a b c h = ground arith

combine_same :
    (a b : Input)
    → a.previous_txid ≡ b.previous_txid
    → a.spent_output_index ≡ b.spent_output_index
    → combine a b ≡ ok (merge a b)
unfolding combine
combine_same a b p q = ground arith

combine_ids :
    (a b c : Input)
    → combine a b ≡ ok c
    → (a.previous_txid ≡ b.previous_txid) × (a.spent_output_index ≡ b.spent_output_index)
unfolding combine
combine_ids a b c h = ground arith

same_ids :
    (a b c : Input)
    → combine a b ≡ ok c
    → (c.previous_txid ≡ a.previous_txid) × (c.spent_output_index ≡ a.spent_output_index)
same_ids a b c h =
    let e = combine_eq_merge a b c h in
    (
      ap (λ (i : Input). i.previous_txid) (sym e) ∙ unfold merge in refl,
      ap (λ (i : Input). i.spent_output_index) (sym e) ∙ unfold merge in refl,
    )

-- Two steps of `combine` may be regrouped: three well-formed inputs whose neighbours combine give one
-- result.
pub combine_assoc :
    (a b c ab bc : Input)
    → IsWellFormed a
    → IsWellFormed b
    → IsWellFormed c
    → combine a b ≡ ok ab
    → combine b c ≡ ok bc
    → combine ab c ≡ combine a bc
combine_assoc a b c ab bc u v w h k =
    let (p, q) = combine_ids a b ab h in
    let (p', q') = combine_ids b c bc k in
    let (s, t) = same_ids a b ab h in
    let (s', t') = same_ids b c bc k in
    let e = combine_eq_merge a b ab h in
    let f = combine_eq_merge b c bc k in
    combine_same ab c (s ∙ p ∙ p') (t ∙ q ∙ q')
    ∙ rw (← e, ← f) (ap ok (merge_assoc a b c u v w))
    ∙ sym (combine_same a bc (p ∙ sym s') (q ∙ sym t'))
