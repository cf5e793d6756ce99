-- ===== src/Psbt/Finalized.antt =====
-- `Input::finalize` seen from the PSBT.
use rust_psbt.Prelude.{
  ◌≡◌, refl, ap, Bool, true, ok, all, all_of_All, all_cons, List, [], ◌∷◌, map, arith,
}
use rust_psbt.Input.{Input, FinalScripts, finalized, is_finalized, out_point}
use rust_psbt.Input.Utxo.{finalize}
use rust_psbt.Primitives.{Transaction, Txid}
use rust_psbt.Psbt.{Psbt, unsigned_tx, all_finalized}
use rust_psbt.Psbt.TxFields.{tx_fields, SameTx-unsigned_tx}

module _ (compute_txid : Transaction → Txid) (debug_assertions : Bool) where
  -- The second list has the inputs of the first, those that were not final now finalized.
  pub data Finalizes : List Input → List Input → Type 0 where
    done : Finalizes [] []
    final :
        (i : Input) (is js : List Input)
        → is_finalized i ≡ true
        → Finalizes is js
        → Finalizes (i ∷ is) (i ∷ js)
    finish :
        (i j : Input) (is js : List Input) (scripts : FinalScripts)
        → finalize compute_txid debug_assertions i scripts ≡ ok j
        → Finalizes is js
        → Finalizes (i ∷ is) (j ∷ js)

  finalized-tx_fields :
      (i : Input) (scripts : FinalScripts) → tx_fields (finalized i scripts) ≡ tx_fields i
  unfolding finalized out_point
  finalized-tx_fields i scripts = refl

  finalized-is_finalized :
      (i : Input) (scripts : FinalScripts) → is_finalized (finalized i scripts) ≡ true
  unfolding finalized is_finalized
  finalized-is_finalized i scripts = ground arith

  finalize-finalized :
      (i j : Input) (scripts : FinalScripts)
      → finalize compute_txid debug_assertions i scripts ≡ ok j
      → finalized i scripts ≡ j
  unfolding finalize
  finalize-finalized i j scripts h = ground arith

  finalize-tx_fields :
      (i j : Input) (scripts : FinalScripts)
      → finalize compute_txid debug_assertions i scripts ≡ ok j
      → tx_fields j ≡ tx_fields i
  finalize-tx_fields i j scripts h =
      rw (← finalize-finalized i j scripts h) (finalized-tx_fields i scripts)

  Finalizes-tx_fields : (is js : List Input) → Finalizes is js → map tx_fields js ≡ map tx_fields is
  Finalizes-tx_fields is js done = refl
  Finalizes-tx_fields is js (final i is' js' h r) =
      ap (λ ks. tx_fields i ∷ ks) (Finalizes-tx_fields is' js' r)
  Finalizes-tx_fields is js (finish i j is' js' scripts h r) =
      rw (finalize-tx_fields i j scripts h)
        (ap (λ ks. tx_fields i ∷ ks) (Finalizes-tx_fields is' js' r))

  Finalizes-all : (is js : List Input) → Finalizes is js → all is_finalized js ≡ true
  Finalizes-all is js done = all_of_All is_finalized [] tt
  Finalizes-all is js (final i is' js' h r) =
      all_cons is_finalized i js' h (Finalizes-all is' js' r)
  Finalizes-all is js (finish i j is' js' scripts h r) =
      all_cons is_finalized j js'
        (rw (← finalize-finalized i j scripts h) (finalized-is_finalized i scripts))
        (Finalizes-all is' js' r)

  -- Finalizing every input that is not final gives a PSBT that is finalized and has the unsigned
  -- transaction it had.
  pub finalize-unsigned_tx :
      (p : Psbt) (js : List Input)
      → Finalizes p.inputs js
      → (all_finalized (record p { inputs = js }) ≡ true)
        × (unsigned_tx (record p { inputs = js }) ≡ unsigned_tx p)
  unfolding all_finalized
  finalize-unsigned_tx p js f = (
    Finalizes-all p.inputs js f,
    SameTx-unsigned_tx (record p { inputs = js }) p
        (record {
          inputs = Finalizes-tx_fields p.inputs js f;
          outputs = refl;
          version = refl;
          fallback = refl;
        }),
  )
