-- ===== src/Input/Decoder/Laws.antt =====
-- What every decoder of an input map satisfies, whatever bytes it was fed.
use rust_psbt.Prelude.{ℕ, ◌≡◌, is_empty, Option, none, some, List, [], ◌∷◌, ok, arith, ==_iff}
use rust_psbt.Ordered.{nat_ord, pair_ord}
use rust_psbt.BTreeMap.{IsSorted}
use rust_psbt.Primitives.{Byte, Txid, Transaction}
use rust_psbt.Keys.{key_ord, proprietary_ord}
use rust_psbt.Codecs.{Codecs}
use rust_psbt.Decoding.{Round, Pushed}
use rust_psbt.Decoding.Fields.{set_once, push_in, insert_vacant-IsSorted, expect_fuel-eq-ok}
use rust_psbt.Decoding.Ensures.{OfRound, rounds-keep, round_of-keeps, Fed, Fed-keeps}
use rust_psbt.Input.{Input, IsWellFormed}
use rust_psbt.Input.Decoder.Stage
use rust_psbt.Input.Decoder.Stage.{DecoderStage, done}
use rust_psbt.Input.Decoder.State.{InputDecoder, complete}
use rust_psbt.Input.Decoder.{
  at_separator, separator_round, push_round, finish, round, push_from, end, check_txid,
  input_decoder,
}

module _ (c : Codecs) (compute_txid : Transaction → Txid) where
  -- Shares of silent payments stand with their proofs.
  abbrev pub IsPaired : Input → Type 0
  IsPaired i = is_empty i.sp_ecdh_shares ≡ is_empty i.sp_dleq_proofs

  abbrev pub DecodesValid : DecoderStage c → Type 0
  DecodesValid (done i) = IsWellFormed i × IsPaired i
  DecodesValid stage = Unit

  pub record IsSound (d : InputDecoder c) : Type 0 where
    pub stage : DecodesValid d.stage
    pub partial_sigs : IsSorted d.partial_sigs
    pub bip32_derivations : IsSorted d.bip32_derivations
    pub ripemd160_preimages : IsSorted d.ripemd160_preimages
    pub sha256_preimages : IsSorted d.sha256_preimages
    pub hash160_preimages : IsSorted d.hash160_preimages
    pub hash256_preimages : IsSorted d.hash256_preimages
    pub tap_script_sigs : IsSorted d.tap_script_sigs
    pub tap_scripts : IsSorted d.tap_scripts
    pub tap_key_origins : IsSorted d.tap_key_origins
    pub sp_ecdh_shares : IsSorted d.sp_ecdh_shares
    pub sp_dleq_proofs : IsSorted d.sp_dleq_proofs
    pub proprietaries : IsSorted d.proprietaries
    pub unknowns : IsSorted d.unknowns

  from_key-DecodesValid :
      (key : _) (s : DecoderStage c) → Stage.from_key c key ≡ ok s → DecodesValid s
  unfolding Stage.from_key
  from_key-DecodesValid key s run = ground arith

  pub finish-IsSound :
      (s : DecoderStage c) (d : InputDecoder c) (rest : List Byte) (r : Round (InputDecoder c))
      → finish c compute_txid s d rest ≡ ok r
      → IsSound d
      → DecodesValid s
      → OfRound IsSound r
  unfolding finish set_once
  finish-IsSound (Stage.decoding_key decoder) d rest r run h v =
      grind (arith, from_key-DecodesValid)
  finish-IsSound s d rest r run h v = grind (arith, insert_vacant-IsSorted)

  complete-IsWellFormed :
      (d : InputDecoder c) (o : Input)
      → complete c d ≡ ok o
      → IsSound d
      → IsWellFormed o × IsPaired o
  unfolding complete
  complete-IsWellFormed d o run h = ground arith

  at_separator-IsSound :
      (d : InputDecoder c) (bytes : List Byte) (r : Round (InputDecoder c))
      → at_separator c compute_txid d bytes ≡ ok r
      → IsSound d
      → OfRound IsSound r
  unfolding at_separator
  at_separator-IsSound d [] r run h = ground arith
  at_separator-IsSound d (b ∷ rest) r run h = grind (arith, complete-IsWellFormed)

  separator_round-IsSound :
      (s : DecoderStage c) (d : InputDecoder c) (bytes : List Byte) (r : Round (InputDecoder c))
      → separator_round c compute_txid s d bytes ≡ ok r
      → IsSound d
      → OfRound IsSound r
  unfolding separator_round
  separator_round-IsSound Stage.decoding_separator d bytes r run h =
      at_separator-IsSound d bytes r run h
  separator_round-IsSound s d bytes r run h = ground arith

  push_stage-DecodesValid :
      (s : DecoderStage c) (bytes : List Byte) (p : Pushed (DecoderStage c))
      → Stage.push_stage c s bytes ≡ ok p
      → DecodesValid s
      → DecodesValid p.decoder
  unfolding Stage.push_stage push_in
  push_stage-DecodesValid s bytes p run h = ground arith

  push_round-IsSound :
      (d : InputDecoder c) (bytes : List Byte) (p : Pushed (InputDecoder c))
      → push_round c compute_txid d bytes ≡ ok p
      → IsSound d
      → IsSound p.decoder
  unfolding push_round
  push_round-IsSound d bytes p run h = grind (arith, push_stage-DecodesValid)

  round-IsSound :
      (d : InputDecoder c) (bytes : List Byte) (r : Round (InputDecoder c))
      → round c compute_txid d bytes ≡ ok r
      → IsSound d
      → OfRound IsSound r
  unfolding round
  round-IsSound =
      round_of-keeps IsSound (push_round c compute_txid)
        (λ d bytes. finish c compute_txid d.stage d bytes) push_round-IsSound
        (λ d bytes r run h. finish-IsSound d.stage d bytes r run h h.stage)
        (λ d bytes. separator_round c compute_txid d.stage d bytes)
        (λ d bytes r run h. separator_round-IsSound d.stage d bytes r run h)

  push_from-IsSound :
      (fuel : ℕ) (s : DecoderStage c) (d : InputDecoder c) (bytes : List Byte)
      {p : Pushed (InputDecoder c)}
      → push_from c compute_txid fuel s d bytes ≡ some (ok p)
      → IsSound d
      → IsSound p.decoder
  unfolding push_from
  push_from-IsSound fuel (Stage.done o) d bytes run h = ground arith
  push_from-IsSound fuel s d bytes {p} run h =
      rounds-keep IsSound (round c compute_txid) round-IsSound fuel d bytes {p = p} run h

  Fed-IsSound : {d : InputDecoder c} → Fed (input_decoder c compute_txid) d → IsSound d
  Fed-IsSound =
      Fed-keeps (input_decoder c compute_txid) IsSound (ground arith)
        (λ d bytes p run h. push_from-IsSound _ d.stage d bytes (expect_fuel-eq-ok run) h)

  end-DecodesValid :
      (s : DecoderStage c) {o : Input}
      → end c compute_txid s ≡ ok o
      → DecodesValid s
      → IsWellFormed o × IsPaired o
  unfolding end
  end-DecodesValid (Stage.done o) run h = grind arith
  end-DecodesValid s run h = ground arith

  -- The transaction that an input carries is the one whose output it spends.
  abbrev pub Funds : Input → Option Transaction → Type 0
  Funds i none = Unit
  Funds i (some tx) = compute_txid tx ≡ i.previous_txid

  check_txid-Funds :
      (i : Input) (tx : Option Transaction) {o : Input}
      → check_txid c compute_txid i tx ≡ ok o
      → (o ≡ i) × Funds i tx
  unfolding check_txid
  check_txid-Funds i none run = (ground arith, tt)
  check_txid-Funds i (some tx) run = (
    ground (arith, ==_iff (compute_txid tx) i.previous_txid),
    ground (arith, ==_iff (compute_txid tx) i.previous_txid),
  )

  end-Funds :
      (s : DecoderStage c) {o : Input} → end c compute_txid s ≡ ok o → Funds o o.non_witness_utxo
  unfolding end
  end-Funds (Stage.done i) {o} run =
      let (same, funds) = check_txid-Funds i i.non_witness_utxo run in rw same funds
  end-Funds s run = ground arith

  -- Whatever bytes a decoder was fed, in whatever pieces, the input that it ends in has shares of
  -- silent payments exactly if it has proofs of them, the keys of each of its maps rise, each one
  -- once, and a transaction that it carries has the id of the output that it spends.
  pub Fed-end_funded :
      {d : InputDecoder c} {o : Input}
      → Fed (input_decoder c compute_txid) d
      → end c compute_txid d.stage ≡ ok o
      → IsWellFormed o × IsPaired o × Funds o o.non_witness_utxo
  Fed-end_funded {d} fed_bytes ended =
      let (well_formed, paired) = end-DecodesValid d.stage ended (Fed-IsSound fed_bytes).stage in
      (well_formed, paired, end-Funds d.stage ended)
