-- ===== src/Examples/Locking.antt =====
-- Lock times, and the builders of a PSBT.
use rust_psbt.Prelude.{
  ◌≡◌, ◌↔◌, ◌∙◌, ap, suc, refl, List, All, length, [], ◌∷◌, ok, err, panicked, some, any, all,
  arith,
}
use rust_psbt.Prelude.{ℕ, ◌<◌, Option, none, if◌then◌else◌, ltb}
use rust_psbt.Numbers.{required_from_consensus, ReadsHeights, required_from_consensus_iff}
use rust_psbt.Primitives.{LockTime, blocks}
use rust_psbt.Input.{
  Input, has_lock_time, requires_time_based_lock_time, requires_height_based_lock_time,
  is_satisfied_with_height_based_lock_time, unsigned_tx_in,
}
use rust_psbt.Output.{tx_out}
use rust_psbt.Psbt.{
  Psbt, determine_lock_time_error, max_of, expect_max, choose_lock_time, determine_lock_time_of,
  determine_lock_time, inputs, unsigned_tx,
}
use rust_psbt.Psbt.Bip370.{Answer, determine_lock_time-Answer, determine_lock_time_complete}
use rust_psbt.Roles.Creator as Creator
use rust_psbt.Roles.Creator.{modifiable}
use rust_psbt.Roles.Constructor.{
  input, updater, no_more_inputs, no_more_outputs, into_psbt, Updater,
}
use rust_psbt.Roles.Reachable.{Constructs, created, from_modifiable, with_input}
use rust_psbt.Roles.Counted.{IsCounted, Constructs-IsCounted}
use rust_psbt.Roles.Updater as Updates
use rust_psbt.Roles.Updater.{ViewOf, update, lend, write_back, signer}
use rust_psbt.Roles.Handover.{Updated, touched, untouched, IsHandedOn, signer-IsHandedOn}
use rust_psbt.Psbt.LockTimes.{Fits}
use rust_psbt.Roles.Signer as Signers
use rust_psbt.Roles.Updates.{IsUpdatable, updater-IsUpdatable, id_panics_iff}
use rust_psbt.Examples.{blank, txid_of, key_bytes, waiting, timed, sample, payment}

-- One input that needs a time after one that needs a height.
abbrev torn : Psbt
torn = record sample { inputs = waiting ∷ timed ∷ [] }

sample_waits : determine_lock_time sample ≡ ok (blocks 100)
unfolding blank payment sample determine_lock_time determine_lock_time_of choose_lock_time
    expect_max max_of any all has_lock_time requires_time_based_lock_time
    requires_height_based_lock_time is_satisfied_with_height_based_lock_time
sample_waits = refl

torn_conflicts : determine_lock_time torn ≡ err determine_lock_time_error
unfolding blank payment sample determine_lock_time determine_lock_time_of choose_lock_time
    expect_max max_of any all has_lock_time requires_time_based_lock_time
    requires_height_based_lock_time is_satisfied_with_height_based_lock_time
torn_conflicts = refl

determine_lock_time-Answer_example :
    Answer sample.inputs sample.global.fallback_lock_time (determine_lock_time sample)
determine_lock_time-Answer_example = determine_lock_time-Answer sample

determine_lock_time_complete_example :
    (m : LockTime) × (determine_lock_time sample ≡ ok m) × All (Fits m) sample.inputs
unfolding blank payment sample
determine_lock_time_complete_example =
    determine_lock_time_complete sample (blocks 120) (omega arith, tt)

abbrev built : Creator.Constructor modifiable
unfolding blank payment sample input Creator.constructor_modifiable Creator.new
built = input waiting (Creator.constructor_modifiable Creator.new)

built_reached : Constructs modifiable built
unfolding blank payment sample built input Creator.constructor_modifiable Creator.new
built_reached =
    with_input waiting (Creator.constructor_modifiable Creator.new)
      (from_modifiable Creator.new created)

Constructs-IsCounted_example : IsCounted built.psbt
Constructs-IsCounted_example = Constructs-IsCounted modifiable built built_reached

abbrev updated : Updater
unfolding blank payment sample built no_more_inputs no_more_outputs
updated = record { psbt = (no_more_outputs (no_more_inputs built)).psbt }

updated_ok : updater built ≡ ok updated
unfolding blank payment sample built updater into_psbt no_more_inputs no_more_outputs
    determine_lock_time determine_lock_time_of choose_lock_time expect_max max_of any all
    has_lock_time requires_time_based_lock_time requires_height_based_lock_time
    is_satisfied_with_height_based_lock_time
updated_ok = refl

updater-IsUpdatable_example : IsUpdatable updated.psbt
updater-IsUpdatable_example = updater-IsUpdatable modifiable built updated built_reached updated_ok

id_panics_iff_example :
    (Updates.id txid_of key_bytes (record { psbt = torn }) ≡ panicked)
    ↔ (determine_lock_time torn ≡ err determine_lock_time_error)
id_panics_iff_example = id_panics_iff txid_of key_bytes (record { psbt = torn })

-- A closure that writes the sequence of every input, and returns their number.
abbrev sequenced : List Input → List Input
sequenced [] = []
sequenced (i ∷ is) = record i { sequence = some 7 } ∷ sequenced is

length-sequenced : (is : List Input) → length (sequenced is) ≡ length is
length-sequenced [] = refl
length-sequenced (i ∷ is) = ap suc (length-sequenced is)

abbrev write_sequences : ViewOf updated.psbt → ℕ × ViewOf updated.psbt
write_sequences v = (
  length v.inputs.items,
  record v {
    inputs = record {
      items = sequenced v.inputs.items;
      count = length-sequenced v.inputs.items ∙ v.inputs.count;
    };
  },
)

abbrev written : Updater
unfolding blank payment sample built no_more_inputs no_more_outputs
written = record { psbt = record (updated.psbt) { inputs = sequenced updated.psbt.inputs } }

written-updated : Updated updated written
unfolding update lend write_back written
written-updated = touched untouched write_sequences

abbrev given : Signers.Signer
unfolding blank payment sample built unsigned_tx_in tx_out
given = record {
  psbt = written.psbt;
  cache = record {
    version = 2;
    lock_time = blocks 100;
    input = unsigned_tx_in (record waiting { sequence = some 7 }) ∷ [];
    output = [];
  };
}

given_signer : signer written ≡ ok given
unfolding blank payment sample built no_more_inputs no_more_outputs signer Updates.into_psbt
    Signers.new unsigned_tx determine_lock_time determine_lock_time_of choose_lock_time expect_max
    max_of any all has_lock_time requires_time_based_lock_time requires_height_based_lock_time
    is_satisfied_with_height_based_lock_time input Creator.constructor_modifiable Creator.new
    unsigned_tx_in given
given_signer = refl

signer-IsHandedOn_example : IsHandedOn built.psbt given
signer-IsHandedOn_example =
    signer-IsHandedOn modifiable built updated written given built_reached updated_ok
      written-updated given_signer

-- A reader of heights as upstream documents it.
abbrev read_height : ℕ → Option ℕ
read_height n = if ltb n 500_000_000 then some n else none

read_height-ReadsHeights : ReadsHeights read_height
read_height-ReadsHeights n h = (λ e. ground arith, λ e. ground arith)

required_from_consensus_iff_example :
    (required_from_consensus read_height 800 ≡ ok (record { height = 800 }))
    ↔ ((0 < 800) × (800 < 500_000_000) × (◌≡◌ {A = ℕ} 800 800))
required_from_consensus_iff_example =
    required_from_consensus_iff read_height 800 (record { height = 800 }) read_height-ReadsHeights
