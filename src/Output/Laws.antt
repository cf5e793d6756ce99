-- ===== src/Output/Laws.antt =====
-- What `Output::combine` does to a well-formed output.
use rust_psbt.Prelude.{
  ℕ, ◌≡◌, ◌⊎◌, refl, ok, or_else, ==_refl, bytes_eq→eq, bytes_eq_refl, arith, Option, none, some,
  is_some, true, inl, inr,
}
use rust_psbt.Ordered.{nat_ord}
use rust_psbt.BTreeMap.{get}
use rust_psbt.Keys.{Key, ProprietaryKey, key_ord, proprietary_ord, combine_option}
use rust_psbt.Keys.Laws.{
  combine_option-or_else, combine_option_self, combine_option_assoc, combine_map_self,
  combine_map_assoc, combine_map-IsSorted, get-combine_map,
}
use rust_psbt.Output.{Output, IsWellFormed, validate}
use rust_psbt.Output.Combine.{merge, combine}

pub merge_self : (o : Output) → IsWellFormed o → merge o o ≡ o
unfolding merge
merge_self o w = simp (
  combine_option_self,
  combine_map_self o.bip32_derivations w.bip32_derivations,
  combine_map_self o.tap_key_origins w.tap_key_origins,
  combine_map_self o.proprietaries w.proprietaries,
  combine_map_self o.unknowns w.unknowns,
)

pub merge_assoc :
    (a b c : Output)
    → IsWellFormed a
    → IsWellFormed b
    → IsWellFormed c
    → merge (merge a b) c ≡ merge a (merge b c)
unfolding merge
merge_assoc a b c u v w = simp (
  combine_option_assoc,
  combine_map_assoc a.bip32_derivations b.bip32_derivations c.bip32_derivations u.bip32_derivations
      v.bip32_derivations w.bip32_derivations,
  combine_map_assoc a.tap_key_origins b.tap_key_origins c.tap_key_origins u.tap_key_origins
      v.tap_key_origins w.tap_key_origins,
  combine_map_assoc a.proprietaries b.proprietaries c.proprietaries u.proprietaries v.proprietaries
      w.proprietaries,
  combine_map_assoc a.unknowns b.unknowns c.unknowns u.unknowns v.unknowns w.unknowns,
)

pub merge-IsWellFormed : (a b : Output) → IsWellFormed a → IsWellFormed (merge a b)
unfolding merge
merge-IsWellFormed a b w = record {
  bip32_derivations =
      combine_map-IsSorted a.bip32_derivations b.bip32_derivations w.bip32_derivations;
  tap_key_origins = combine_map-IsSorted a.tap_key_origins b.tap_key_origins w.tap_key_origins;
  proprietaries = combine_map-IsSorted a.proprietaries b.proprietaries w.proprietaries;
  unknowns = combine_map-IsSorted a.unknowns b.unknowns w.unknowns;
}

-- Each set field of either side is in the result: a field of one value comes from the first side
-- that sets it, an entry of a map from the second side if that has the key.
pub record IsMerge (a b c : Output) : Type 0 where
  pub amount : c.amount ≡ a.amount
  pub script_pubkey : c.script_pubkey ≡ a.script_pubkey
  pub redeem_script : c.redeem_script ≡ or_else a.redeem_script b.redeem_script
  pub witness_script : c.witness_script ≡ or_else a.witness_script b.witness_script
  pub tap_internal_key : c.tap_internal_key ≡ or_else a.tap_internal_key b.tap_internal_key
  pub tap_tree : c.tap_tree ≡ or_else a.tap_tree b.tap_tree
  pub sp_v0_info : c.sp_v0_info ≡ or_else a.sp_v0_info b.sp_v0_info
  pub sp_v0_label : c.sp_v0_label ≡ or_else a.sp_v0_label b.sp_v0_label
  pub bip32_derivations :
      (k : ℕ)
      → get k c.bip32_derivations ≡ or_else (get k b.bip32_derivations) (get k a.bip32_derivations)
  pub tap_key_origins :
      (k : ℕ)
      → get k c.tap_key_origins ≡ or_else (get k b.tap_key_origins) (get k a.tap_key_origins)
  pub proprietaries :
      (k : ProprietaryKey)
      → get k c.proprietaries ≡ or_else (get k b.proprietaries) (get k a.proprietaries)
  pub unknowns : (k : Key) → get k c.unknowns ≡ or_else (get k b.unknowns) (get k a.unknowns)

merge-IsMerge : (a b : Output) → IsWellFormed b → IsMerge a b (merge a b)
unfolding merge
merge-IsMerge a b w = record {
  amount = refl;
  script_pubkey = refl;
  redeem_script = combine_option-or_else a.redeem_script b.redeem_script;
  witness_script = combine_option-or_else a.witness_script b.witness_script;
  tap_internal_key = combine_option-or_else a.tap_internal_key b.tap_internal_key;
  tap_tree = combine_option-or_else a.tap_tree b.tap_tree;
  sp_v0_info = combine_option-or_else a.sp_v0_info b.sp_v0_info;
  sp_v0_label = combine_option-or_else a.sp_v0_label b.sp_v0_label;
  bip32_derivations =
      λ k. get-combine_map k a.bip32_derivations b.bip32_derivations w.bip32_derivations;
  tap_key_origins = λ k. get-combine_map k a.tap_key_origins b.tap_key_origins w.tap_key_origins;
  proprietaries = λ k. get-combine_map k a.proprietaries b.proprietaries w.proprietaries;
  unknowns = λ k. get-combine_map k a.unknowns b.unknowns w.unknowns;
}

-- An output combined with itself is itself.
pub combine_self : (o : Output) → IsWellFormed o → combine o o ≡ ok o
unfolding combine
combine_self o w = rw (==_refl o.amount, bytes_eq_refl o.script_pubkey, merge_self o w)

pub combine_eq_merge : (a b c : Output) → combine a b ≡ ok c → merge a b ≡ c
unfolding combine
combine_eq_merge a b c h = ground arith

-- A successful `combine` joins two outputs of one amount and script, as `IsMerge` describes.
pub combine-IsMerge :
    (a b c : Output)
    → IsWellFormed b
    → combine a b ≡ ok c
    → (a.amount ≡ b.amount) × (a.script_pubkey ≡ b.script_pubkey) × IsMerge a b c
unfolding combine
combine-IsMerge a b c w h = (
  ground arith,
  bytes_eq→eq _ _ (ground arith),
  rw (← combine_eq_merge a b c h) (merge-IsMerge a b w),
)

is_some-or_else :
    (a b : Option ℕ) → is_some (or_else a b) ≡ true → (is_some a ≡ true) ⊎ (is_some b ≡ true)
is_some-or_else none b h = inr h
is_some-or_else (some a) b h = inl h

-- `combine` keeps what `validate` checks: a label never stands without its silent payment info.
pub combine-validate :
    (a b c : Output)
    → validate a ≡ ok tt
    → validate b ≡ ok tt
    → combine a b ≡ ok c
    → validate c ≡ ok tt
unfolding validate merge combine_option
combine-validate a b c u v h = rw (← combine_eq_merge a b c h) (ground arith)
