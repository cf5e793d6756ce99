-- ===== src/Psbt/Combine/Laws.antt =====
-- What `Psbt::combine_with` keeps and joins.
use rust_psbt.Prelude.{
  ℕ, ◌≡◌, ◌≢◌, refl, ap, sym, ◌∙◌, none, some, List, All, All-imp, length, get_elem?, ok, map_err,
  >>=-eq-ok, arith,
}
use rust_psbt.Global.{Global}
use rust_psbt.Global as GlobalMap
use rust_psbt.Global.Combine as Globals
use rust_psbt.Global.Laws as GlobalLaws
use rust_psbt.Input.{Input}
use rust_psbt.Input.Laws as InputLaws
use rust_psbt.Input as InputMap
use rust_psbt.Output.{Output}
use rust_psbt.Output as OutputMap
use rust_psbt.Output.Laws as OutputLaws
use rust_psbt.Primitives.{LockTime}
use rust_psbt.Psbt.{Psbt, determine_lock_time}
use rust_psbt.Psbt.Combine.{
  global, input, output, lock_time, zip_with, combine_inputs, combine_outputs, combine_with,
}
use rust_psbt.Psbt.Combine.Zip.{
  map_err-eq-ok, zip_with_self, zip_with_length, zip_with_get, zip_with_rest, All-get,
}

-- A PSBT whose maps are all sorted.
pub record IsWellFormed (p : Psbt) : Type 0 where
  pub global : GlobalMap.IsWellFormed p.global
  pub inputs : All InputMap.IsWellFormed p.inputs
  pub outputs : All OutputMap.IsWellFormed p.outputs

inputs_self :
    (is : List Input) → All InputMap.IsWellFormed is → zip_with combine_inputs is is ≡ ok is
inputs_self is w =
    zip_with_self combine_inputs is
      (All-imp _ _ (λ i v. ap (map_err input) (InputLaws.combine_self i v)) is w)

outputs_self :
    (os : List Output) → All OutputMap.IsWellFormed os → zip_with combine_outputs os os ≡ ok os
outputs_self os w =
    zip_with_self combine_outputs os
      (All-imp _ _ (λ o v. ap (map_err output) (OutputLaws.combine_self o v)) os w)

-- A PSBT with sorted maps whose lock time can be determined, combined with itself, is itself.
pub combine_with_self :
    (p : Psbt) (l : LockTime)
    → IsWellFormed p
    → determine_lock_time p ≡ ok l
    → combine_with p p ≡ ok p
unfolding combine_with
combine_with_self p l w h = rw (
  GlobalLaws.combine_self p.global w.global,
  inputs_self p.inputs w.inputs,
  outputs_self p.outputs w.outputs,
  h,
)

-- The steps of a successful run.
pub record Steps (a b c : Psbt) : Type 0 where
  pub global : Globals.combine a.global b.global ≡ ok c.global
  pub inputs : zip_with combine_inputs a.inputs b.inputs ≡ ok c.inputs
  pub outputs : zip_with combine_outputs a.outputs b.outputs ≡ ok c.outputs
  pub determined : (l : LockTime) × (determine_lock_time c ≡ ok l)

combine_with-Steps : (a b c : Psbt) → combine_with a b ≡ ok c → Steps a b c
unfolding combine_with
combine_with-Steps a b c h =
    let (g, e, h1) = >>=-eq-ok (map_err global (Globals.combine a.global b.global)) _ h in
    let (is, e1, h2) = >>=-eq-ok (zip_with combine_inputs a.inputs b.inputs) _ h1 in
    let (os, e2, h3) = >>=-eq-ok (zip_with combine_outputs a.outputs b.outputs) _ h2 in
    let (l, e3, h4) =
      >>=-eq-ok
        (map_err lock_time (determine_lock_time (record { global = g; inputs = is; outputs = os })))
        _ h3 in
    let k : record { global = g; inputs = is; outputs = os } ≡ c = ground arith in
    rw (← k) (record {
      global = map_err-eq-ok global _ e;
      inputs = e1;
      outputs = e2;
      determined = (l, map_err-eq-ok lock_time _ e3);
    })

-- What a successful `combine_with` gives: the inputs and outputs stay in number and order, those at
-- an index that both sides have are merged, the others are those of `self`; the fallback lock time,
-- the flags and the counts are those of `self`; and the lock time can be determined.
pub record Joins (a b c : Psbt) : Type 0 where
  pub input_length : length c.inputs ≡ length a.inputs
  pub output_length : length c.outputs ≡ length a.outputs
  pub inputs_merged :
      (i : ℕ) (x y : Input)
      → get_elem? a.inputs i ≡ some x
      → get_elem? b.inputs i ≡ some y
      → (z : Input) × (get_elem? c.inputs i ≡ some z) × InputLaws.IsMerge x y z
  pub outputs_merged :
      (i : ℕ) (x y : Output)
      → get_elem? a.outputs i ≡ some x
      → get_elem? b.outputs i ≡ some y
      → (z : Output) × (get_elem? c.outputs i ≡ some z) × OutputLaws.IsMerge x y z
  pub inputs_rest :
      (i : ℕ) → get_elem? b.inputs i ≡ none → get_elem? c.inputs i ≡ get_elem? a.inputs i
  pub outputs_rest :
      (i : ℕ) → get_elem? b.outputs i ≡ none → get_elem? c.outputs i ≡ get_elem? a.outputs i
  pub flags : c.global.tx_modifiable_flags ≡ a.global.tx_modifiable_flags
  pub fallback : c.global.fallback_lock_time ≡ a.global.fallback_lock_time
  pub input_count : c.global.input_count ≡ a.global.input_count
  pub output_count : c.global.output_count ≡ a.global.output_count
  pub determined : (l : LockTime) × (determine_lock_time c ≡ ok l)

input_joined :
    (a b c : Psbt) (i : ℕ) (x y : Input)
    → IsWellFormed b
    → Steps a b c
    → get_elem? a.inputs i ≡ some x
    → get_elem? b.inputs i ≡ some y
    → (z : Input) × (get_elem? c.inputs i ≡ some z) × InputLaws.IsMerge x y z
input_joined a b c i x y w s p q =
    let (z, e, k) = zip_with_get combine_inputs a.inputs b.inputs c.inputs i s.inputs p q in
    (
      z,
      e,
      InputLaws.combine-IsMerge x y z (All-get _ b.inputs i w.inputs q) (map_err-eq-ok input _ k),
    )

output_joined :
    (a b c : Psbt) (i : ℕ) (x y : Output)
    → IsWellFormed b
    → Steps a b c
    → get_elem? a.outputs i ≡ some x
    → get_elem? b.outputs i ≡ some y
    → (z : Output) × (get_elem? c.outputs i ≡ some z) × OutputLaws.IsMerge x y z
output_joined a b c i x y w s p q =
    let (z, e, k) = zip_with_get combine_outputs a.outputs b.outputs c.outputs i s.outputs p q in
    let (u, v, m) =
      OutputLaws.combine-IsMerge x y z (All-get _ b.outputs i w.outputs q)
        (map_err-eq-ok output _ k) in
    (z, e, m)

global_kept :
    (a b c : Global)
    → Globals.combine a b ≡ ok c
    → (c.tx_modifiable_flags ≡ a.tx_modifiable_flags)
      × (c.fallback_lock_time ≡ a.fallback_lock_time)
      × (c.input_count ≡ a.input_count)
      × (c.output_count ≡ a.output_count)
global_kept a b c h =
    let (u, v, (m, e, k)) = GlobalLaws.combine_parts a b c h in
    rw (← k) (unfold Globals.merge in (refl, refl, refl, refl))

-- A successful `combine_with` joins its arguments as `Joins` says, where the maps of the second are
-- sorted.
pub combine_with-Joins : (a b c : Psbt) → IsWellFormed b → combine_with a b ≡ ok c → Joins a b c
combine_with-Joins a b c w h =
    let s = combine_with-Steps a b c h in
    let (f, l, n, m) = global_kept a.global b.global c.global s.global in
    record {
      input_length = zip_with_length combine_inputs a.inputs b.inputs c.inputs s.inputs;
      output_length = zip_with_length combine_outputs a.outputs b.outputs c.outputs s.outputs;
      inputs_merged = λ i x y. input_joined a b c i x y w s;
      outputs_merged = λ i x y. output_joined a b c i x y w s;
      inputs_rest = λ i. zip_with_rest combine_inputs a.inputs b.inputs c.inputs i s.inputs;
      outputs_rest = λ i. zip_with_rest combine_outputs a.outputs b.outputs c.outputs i s.outputs;
      flags = f;
      fallback = l;
      input_count = n;
      output_count = m;
      determined = s.determined;
    }

-- `combine_with` is not commutative: two PSBTs with different flags combine to different PSBTs,
-- whichever of them is first.
pub combine_with-not_commutative :
    (a b c d : Psbt)
    → a.global.tx_modifiable_flags ≢ b.global.tx_modifiable_flags
    → combine_with a b ≡ ok c
    → combine_with b a ≡ ok d
    → c ≢ d
combine_with-not_commutative a b c d n h k e =
    let (f, _, _, _) = global_kept a.global b.global c.global (combine_with-Steps a b c h).global in
    let (f', _, _, _) =
      global_kept b.global a.global d.global (combine_with-Steps b a d k).global in
    n (sym f ∙ ap (λ (p : Psbt). p.global.tx_modifiable_flags) e ∙ f')
