-- ===== src/Psbt/Combine.antt =====
-- `Psbt::combine_with` and `combine` of src/psbt.rs: the Combiner role on whole PSBTs.
pub mod Zip
pub mod Laws
use rust_psbt.Prelude.{List, [], ◌∷◌, Outcome, ok, map_err, ◌>>=◌, ◌>>◌}
use rust_psbt.Global.{Global}
use rust_psbt.Global.Combine as Globals
use rust_psbt.Input.{Input}
use rust_psbt.Input.Combine as Inputs
use rust_psbt.Output.{Output}
use rust_psbt.Output.Combine as Outputs
use rust_psbt.Psbt.{Psbt, DetermineLockTimeError, determine_lock_time}

-- `CombineError`.
pub data CombineError : Type 0 where
  global : Globals.CombineError → CombineError
  input : Inputs.CombineError → CombineError
  output : Outputs.CombineError → CombineError
  lock_time : DetermineLockTimeError → CombineError

-- `for (mine, theirs) in self.iter_mut().zip(other)`: the loop ends with the shorter list, and what
-- `self` has beyond it stays.
unfoldable pub zip_with {ℓ κ} :
    {E : Type ℓ} {A : Type κ} → (A → A → Outcome E A) → List A → List A → Outcome E (List A)
zip_with f [] ys = ok []
zip_with f (x ∷ xs) [] = ok (x ∷ xs)
zip_with f (x ∷ xs) (y ∷ ys) = do z ← f x y; zs ← zip_with f xs ys; ok (z ∷ zs)

abbrev pub combine_inputs : Input → Input → Outcome CombineError Input
combine_inputs a b = map_err input (Inputs.combine a b)

abbrev pub combine_outputs : Output → Output → Outcome CombineError Output
combine_outputs a b = map_err output (Outputs.combine a b)

unfoldable pub combine_with : Psbt → Psbt → Outcome CombineError Psbt
combine_with a b = do
  g ← map_err global (Globals.combine a.global b.global)
  is ← zip_with combine_inputs a.inputs b.inputs
  os ← zip_with combine_outputs a.outputs b.outputs
  l ← map_err lock_time (determine_lock_time (record { global = g; inputs = is; outputs = os }))
  ok (record { global = g; inputs = is; outputs = os })

-- `combine` on two references clones both.
unfoldable pub combine : Psbt → Psbt → Outcome CombineError Psbt
combine this that = combine_with this that
