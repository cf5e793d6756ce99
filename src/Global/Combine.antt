-- ===== src/Global/Combine.antt =====
-- `Global::combine`.
use rust_psbt.Prelude.{
  ℕ, ◌-◌, Bool, not, ◌&&◌, ◌||◌, none, some, [], ◌∷◌, ltb, ◌==◌, bytes_eq, length, drop, Outcome,
  ok, err, panicked, fail_if, ◌>>=◌, ◌>>◌, if◌then◌else◌,
}
use rust_psbt.Primitives.{KeySource, DerivationPath}
use rust_psbt.Ordered.{nat_ord}
use rust_psbt.BTreeMap.{BTreeMap, get, insert}
use rust_psbt.Keys.{key_ord, proprietary_ord, combine_map}
use rust_psbt.Global.{Global, Xpub}

-- `global::CombineError`.
pub data CombineError : Type 0 where
  version_mismatch : ℕ → ℕ → CombineError
  tx_version_mismatch : ℕ → ℕ → CombineError
  inconsistent_key_sources : Xpub → CombineError

-- What the loop over the other's xpubs does with a key that both maps hold.
pub data Choice : Type 0 where
  keep_mine take_theirs : Choice

-- `derivation[start..]`: a start past the end panics.
unfoldable pub slice_from {ℓ} : {E : Type ℓ} → DerivationPath → ℕ → Outcome E DerivationPath
slice_from path start = if ltb (length path) start then panicked else ok (drop start path)

-- `a - b` on `usize`: below zero it panics, or wraps to a start that the slice refuses.
unfoldable pub checked_minus {ℓ} : {E : Type ℓ} → ℕ → ℕ → Outcome E ℕ
checked_minus a b = if ltb a b then panicked else ok (a - b)

-- The condition of the first branch. `&&` and `||` stop at the first operand that decides.
unfoldable pub mine_covers : KeySource → KeySource → Bool
mine_covers (fingerprint1, derivation1) (fingerprint2, derivation2) =
    (bytes_eq derivation1 derivation2 && fingerprint1 == fingerprint2)
    || (ltb (length derivation1) (length derivation2)
        && bytes_eq derivation1 (drop (length derivation2 - length derivation1) derivation2))

-- The condition of the second branch.
unfoldable pub theirs_covers : KeySource → KeySource → Outcome CombineError Bool
unfolding slice_from checked_minus
theirs_covers (fingerprint1, derivation1) (fingerprint2, derivation2) = do
  start ← checked_minus (length derivation1) (length derivation2)
  tail ← slice_from derivation1 start
  ok (bytes_eq derivation2 tail)

-- The arm `Entry::Occupied`: the first source is the other's, the second is the one in the map.
unfoldable pub choose : Xpub → KeySource → KeySource → Outcome CombineError Choice
choose xpub theirs mine = if mine_covers theirs mine then ok keep_mine else (do
  covered ← theirs_covers theirs mine
  if covered then ok take_theirs else err (inconsistent_key_sources xpub))

abbrev pub apply_choice :
    Xpub → KeySource → BTreeMap Xpub KeySource → Choice → BTreeMap Xpub KeySource
apply_choice xpub source m keep_mine = m
apply_choice xpub source m take_theirs = insert xpub source m

-- One round of the loop.
unfoldable pub merge_xpub :
    Xpub → KeySource → BTreeMap Xpub KeySource → Outcome CombineError (BTreeMap Xpub KeySource)
merge_xpub xpub source m = elim (get xpub m) [
  | none ↦ ok (insert xpub source m)
  | some mine ↦ do choice ← choose xpub source mine; ok (apply_choice xpub source m choice)
]

-- `for (xpub, source) in other.xpubs`.
unfoldable pub merge_xpubs :
    BTreeMap Xpub KeySource
    → BTreeMap Xpub KeySource
    → Outcome CombineError (BTreeMap Xpub KeySource)
merge_xpubs m [] = ok m
merge_xpubs m ((xpub, source) ∷ rest) = merge_xpub xpub source m >>= λ m'. merge_xpubs m' rest

-- What is left of `self` with its merged xpubs: the fallback lock time, the flags and the counts
-- are not touched.
unfoldable pub merge : Global → Global → BTreeMap Xpub KeySource → Global
unfolding combine_map
merge a b xpubs = record a {
  xpubs = xpubs;
  sp_ecdh_shares = combine_map a.sp_ecdh_shares b.sp_ecdh_shares;
  sp_dleq_proofs = combine_map a.sp_dleq_proofs b.sp_dleq_proofs;
  proprietaries = combine_map a.proprietaries b.proprietaries;
  unknowns = combine_map a.unknowns b.unknowns;
}

unfoldable pub combine : Global → Global → Outcome CombineError Global
combine a b = do
  fail_if (not (a.version == b.version)) (version_mismatch a.version b.version)
  fail_if (not (a.tx_version == b.tx_version)) (tx_version_mismatch a.tx_version b.tx_version)
  xpubs ← merge_xpubs a.xpubs b.xpubs
  ok (merge a b xpubs)
