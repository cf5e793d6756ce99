-- ===== src/Examples/Combining.antt =====
-- The Combiner on two PSBTs that know different scripts of one input.
use rust_psbt.Prelude.{◌≡◌, ◌≢◌, ◌↔◌, inl, refl, [], ◌∷◌, ok, err, panicked, some, any, all, arith}
use rust_psbt.Primitives.{blocks, KeySource}
use rust_psbt.Ordered.{nat_ord}
use rust_psbt.BTreeMap.{get, insert, extend}
use rust_psbt.Keys.{combine_option, combine_map}
use rust_psbt.Global.{Global}
use rust_psbt.Global as GlobalMap
use rust_psbt.Global.Combine as Globals
use rust_psbt.Global.Xpubs.{IsSuffix, choose_panics, choose_same_path, choose_inconsistent}
use rust_psbt.Global.Laws.{Covers, combine-Covers}
use rust_psbt.Input.{
  Input, has_lock_time, requires_time_based_lock_time, requires_height_based_lock_time,
  is_satisfied_with_height_based_lock_time,
}
use rust_psbt.Input as InputMap
use rust_psbt.Input.Combine as Inputs
use rust_psbt.Input.Laws as InputLaws
use rust_psbt.Output.{Output, validate}
use rust_psbt.Output as OutputMap
use rust_psbt.Output.Combine as Outputs
use rust_psbt.Output.Laws.{combine-validate}
use rust_psbt.Psbt.{
  Psbt, max_of, expect_max, choose_lock_time, determine_lock_time_of, determine_lock_time,
}
use rust_psbt.Psbt.Combine.{combine_with, zip_with}
use rust_psbt.Psbt.Combine.Laws.{
  IsWellFormed, Joins, combine_with_self, combine_with-Joins, combine_with-not_commutative,
}
use rust_psbt.Prelude.{bytes_eq}
use rust_psbt.Examples.{blank, waiting, sample, payment}

-- The second side has a redeem script and other flags.
abbrev knowing : Input
knowing = record waiting { redeem_script = some (4 ∷ []) }

abbrev theirs : Psbt
theirs = record sample {
  inputs = knowing ∷ [];
  global = record (sample.global) { tx_modifiable_flags = record { bits = 0 } };
}

abbrev joined : Psbt
joined = record sample { inputs = knowing ∷ [] }

-- Every map of the samples is empty.
input_sorted : InputMap.IsWellFormed waiting
unfolding blank payment sample bytes_eq
input_sorted = record {
  partial_sigs = tt;
  bip32_derivations = tt;
  ripemd160_preimages = tt;
  sha256_preimages = tt;
  hash160_preimages = tt;
  hash256_preimages = tt;
  tap_script_sigs = tt;
  tap_scripts = tt;
  tap_key_origins = tt;
  sp_ecdh_shares = tt;
  sp_dleq_proofs = tt;
  proprietaries = tt;
  unknowns = tt;
}

knowing_sorted : InputMap.IsWellFormed knowing
unfolding blank payment sample bytes_eq
knowing_sorted = record {
  partial_sigs = tt;
  bip32_derivations = tt;
  ripemd160_preimages = tt;
  sha256_preimages = tt;
  hash160_preimages = tt;
  hash256_preimages = tt;
  tap_script_sigs = tt;
  tap_scripts = tt;
  tap_key_origins = tt;
  sp_ecdh_shares = tt;
  sp_dleq_proofs = tt;
  proprietaries = tt;
  unknowns = tt;
}

global_sorted : GlobalMap.IsWellFormed sample.global
unfolding blank payment sample bytes_eq
global_sorted = record {
  xpubs = tt;
  sp_ecdh_shares = tt;
  sp_dleq_proofs = tt;
  proprietaries = tt;
  unknowns = tt;
}

output_sorted : OutputMap.IsWellFormed payment
unfolding blank payment sample bytes_eq
output_sorted = record {
  bip32_derivations = tt;
  tap_key_origins = tt;
  proprietaries = tt;
  unknowns = tt;
}

sample_sorted : IsWellFormed sample
unfolding blank payment sample bytes_eq
sample_sorted = record {
  global = global_sorted;
  inputs = (input_sorted, tt);
  outputs = (output_sorted, tt);
}

theirs_sorted : IsWellFormed theirs
unfolding blank payment sample bytes_eq
theirs_sorted = record {
  global = record {
    xpubs = tt;
    sp_ecdh_shares = tt;
    sp_dleq_proofs = tt;
    proprietaries = tt;
    unknowns = tt;
  };
  inputs = (knowing_sorted, tt);
  outputs = (output_sorted, tt);
}

sample_joins : combine_with sample theirs ≡ ok joined
unfolding blank payment sample bytes_eq combine_with zip_with Globals.combine Globals.merge
    Globals.merge_xpubs Inputs.combine Inputs.merge Outputs.combine Outputs.merge combine_option
    combine_map extend determine_lock_time determine_lock_time_of choose_lock_time expect_max max_of
    any all has_lock_time requires_time_based_lock_time requires_height_based_lock_time
    is_satisfied_with_height_based_lock_time
sample_joins = refl

theirs_joins : combine_with theirs sample ≡ ok theirs
unfolding blank payment sample bytes_eq combine_with zip_with Globals.combine Globals.merge
    Globals.merge_xpubs Inputs.combine Inputs.merge Outputs.combine Outputs.merge combine_option
    combine_map extend determine_lock_time determine_lock_time_of choose_lock_time expect_max max_of
    any all has_lock_time requires_time_based_lock_time requires_height_based_lock_time
    is_satisfied_with_height_based_lock_time
theirs_joins = refl

combine_with-Joins_example : Joins sample theirs joined
combine_with-Joins_example = combine_with-Joins sample theirs joined theirs_sorted sample_joins

sample_waits : determine_lock_time sample ≡ ok (blocks 100)
unfolding blank payment sample bytes_eq determine_lock_time determine_lock_time_of choose_lock_time
    expect_max max_of any all has_lock_time requires_time_based_lock_time
    requires_height_based_lock_time is_satisfied_with_height_based_lock_time
sample_waits = refl

combine_with_self_example : combine_with sample sample ≡ ok sample
combine_with_self_example = combine_with_self sample (blocks 100) sample_sorted sample_waits

flags_differ : sample.global.tx_modifiable_flags ≢ theirs.global.tx_modifiable_flags
unfolding blank payment sample bytes_eq
flags_differ e = ground arith

combine_with-not_commutative_example : joined ≢ theirs
combine_with-not_commutative_example =
    combine_with-not_commutative sample theirs joined theirs flags_differ sample_joins theirs_joins

inputs_join : Inputs.combine waiting knowing ≡ ok knowing
unfolding blank payment sample bytes_eq Inputs.combine Inputs.merge combine_option combine_map
    extend
inputs_join = refl

inputs_stay : Inputs.combine knowing waiting ≡ ok knowing
unfolding blank payment sample bytes_eq Inputs.combine Inputs.merge combine_option combine_map
    extend
inputs_stay = refl

combine-IsMerge_example : InputLaws.IsMerge waiting knowing knowing
combine-IsMerge_example =
    InputLaws.combine-IsMerge waiting knowing knowing knowing_sorted inputs_join

combine_assoc_example : Inputs.combine knowing waiting ≡ Inputs.combine waiting knowing
combine_assoc_example =
    InputLaws.combine_assoc waiting knowing waiting knowing knowing input_sorted knowing_sorted
      input_sorted inputs_join inputs_stay

combine_ok_iff_example :
    ((waiting.previous_txid ≡ knowing.previous_txid)
      × (waiting.spent_output_index ≡ knowing.spent_output_index))
    ↔ ((c : Input) × (Inputs.combine waiting knowing ≡ ok c))
combine_ok_iff_example = InputLaws.combine_ok_iff waiting knowing

-- A path, one that it ends, and two that go elsewhere.
abbrev short : KeySource
short = (9, 3 ∷ [])

abbrev long : KeySource
long = (8, 1 ∷ 3 ∷ [])

abbrev mine : Global
mine = record (sample.global) { xpubs = (5, short) ∷ [] }

abbrev others : Global
others = record (sample.global) { xpubs = (5, long) ∷ [] }

xpubs_join : Globals.combine mine others ≡ ok others
unfolding blank payment sample bytes_eq Globals.combine Globals.merge Globals.merge_xpubs
    Globals.merge_xpub Globals.choose Globals.mine_covers Globals.theirs_covers
    Globals.checked_minus Globals.slice_from combine_map extend insert get
xpubs_join = refl

mine_held : get 5 mine.xpubs ≡ some short
unfolding blank payment sample bytes_eq get
mine_held = refl

combine-Covers_example : Covers others.xpubs 5 short
combine-Covers_example = combine-Covers mine others others 5 short xpubs_join (inl mine_held)

not_ending : ¬ IsSuffix (2 ∷ []) (1 ∷ 3 ∷ [])
not_ending ([], e) = ground arith
not_ending (a ∷ [], e) = ground arith
not_ending (a ∷ b ∷ [], e) = ground arith
not_ending (a ∷ b ∷ c ∷ front, e) = ground arith

choose_panics_example : Globals.choose 5 (8, 2 ∷ []) long ≡ panicked
choose_panics_example = choose_panics 5 (8, 2 ∷ []) long (omega arith) not_ending

choose_inconsistent_example :
    Globals.choose 5 long (8, 2 ∷ []) ≡ err (Globals.inconsistent_key_sources 5)
choose_inconsistent_example = choose_inconsistent 5 long (8, 2 ∷ []) (omega arith) not_ending

choose_same_path_example : Globals.choose 5 (9, 3 ∷ []) (8, 3 ∷ []) ≡ ok Globals.take_theirs
choose_same_path_example = choose_same_path 5 (9, 3 ∷ []) (8, 3 ∷ []) refl (λ e. ground arith)

payment_valid : validate payment ≡ ok tt
unfolding blank payment sample bytes_eq validate
payment_valid = refl

payments_join : Outputs.combine payment payment ≡ ok payment
unfolding blank payment sample bytes_eq Outputs.combine Outputs.merge combine_option combine_map
    extend
payments_join = refl

combine-validate_example : validate payment ≡ ok tt
combine-validate_example =
    combine-validate payment payment payment payment_valid payment_valid payments_join
