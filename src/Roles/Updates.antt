-- ===== src/Roles/Updates.antt =====
-- What a PSBT keeps from the end of its construction to its signing.
use rust_psbt.Prelude.{
  ◌≡◌, ◌<◌, ◌↔◌, ◌⊎◌, inl, inr, refl, ap, ◌∙◌, false, List, Outcome, ok, err, panicked, arith,
  map_ok,
}
use rust_psbt.Primitives.{LockTime, PublicKey, Byte, Transaction, Txid}
use rust_psbt.Flags.{
  is_inputs_modifiable, is_outputs_modifiable, clear_inputs_modifiable, clear_outputs_modifiable,
}
use rust_psbt.Flags.Laws.{clear_inputs-Reads, clear_outputs-Reads}
use rust_psbt.Input.{Input}
use rust_psbt.Psbt as Psbts
use rust_psbt.Psbt.{
  Psbt, DetermineLockTimeError, determine_lock_time, IndexOutOfBoundsError, inputs, id, id_tx,
  unsigned_tx,
}
use rust_psbt.Psbt.{determine_lock_time_error}
use rust_psbt.Psbt.Bip370.{determine_lock_time-cases}
use rust_psbt.Roles.Creator.{Mod, Constructor, with_flags}
use rust_psbt.Roles.Constructor.{updater, no_more_inputs, no_more_outputs, into_psbt, Updater}
use rust_psbt.Roles.Counted.{IsCounted, Constructs-IsCounted}
use rust_psbt.Roles.Reachable.{Constructs, without_outputs, without_inputs}
use rust_psbt.Roles.Updater as Updates
use rust_psbt.Roles.Updater.{UpdaterView, lend, write_back, update, signer}

-- What `Constructor::updater` hands on: the construction is closed, the counts are right, and the
-- lock time can be determined.
pub record IsUpdatable (p : Psbt) : Type 0 where
  pub counted : IsCounted p
  pub no_inputs : is_inputs_modifiable p.global.tx_modifiable_flags ≡ false
  pub no_outputs : is_outputs_modifiable p.global.tx_modifiable_flags ≡ false
  pub determined : (l : LockTime) × (determine_lock_time p ≡ ok l)

close_flags :
    (p : Psbt)
    → p.global.tx_modifiable_flags.bits < 256
    → let q = with_flags clear_outputs_modifiable (with_flags clear_inputs_modifiable p) in
      (is_inputs_modifiable q.global.tx_modifiable_flags ≡ false)
      × (is_outputs_modifiable q.global.tx_modifiable_flags ≡ false)
close_flags p b =
    let r = clear_inputs-Reads p.global.tx_modifiable_flags b in
    let r' = clear_outputs-Reads (clear_inputs_modifiable p.global.tx_modifiable_flags) r.byte in
    (r'.inputs ∙ r.inputs, r'.outputs)

pub determined_map {ℓ} :
    {A : Type ℓ} (m : Outcome DetermineLockTimeError LockTime) (a : A) {r : A}
    → map_ok (λ _. a) m ≡ ok r
    → ((l : LockTime) × (m ≡ ok l)) × (a ≡ r)
determined_map (ok l) a h = ((l, refl), ground arith)
determined_map (err e) a h = cc
determined_map panicked a h = cc

map_ok-eq-ok {ℓ κ μ} :
    {E : Type ℓ} {A : Type κ} {B : Type μ} (f : A → B) (m : Outcome E A) {b : B}
    → map_ok f m ≡ ok b
    → (a : A) × (m ≡ ok a) × (f a ≡ b)
map_ok-eq-ok f (ok a) h = (a, refl, ground arith)
map_ok-eq-ok f (err e) h = cc
map_ok-eq-ok f panicked h = cc

pub updater-parts :
    {m : Mod} (c : Constructor m) (u : Updater)
    → updater c ≡ ok u
    → let q = no_more_outputs (no_more_inputs c) in
      ((l : LockTime) × (determine_lock_time q.psbt ≡ ok l)) × (q.psbt ≡ u.psbt)
unfolding updater into_psbt
updater-parts c u h =
    let q = no_more_outputs (no_more_inputs c) in
    let (p, e, k) = map_ok-eq-ok (λ r. record { psbt = r }) (into_psbt q) h in
    let (d, f) = determined_map (determine_lock_time q.psbt) q.psbt e in
    (d, f ∙ ap (λ (v : Updater). v.psbt) k)

-- `updater` on a Constructor that was reached by the Creator's and Constructors' operations gives an
-- Updater whose PSBT is counted, closed and with a lock time.
pub updater-IsUpdatable :
    (m : Mod) (c : Constructor m) (u : Updater)
    → Constructs m c
    → updater c ≡ ok u
    → IsUpdatable u.psbt
unfolding no_more_inputs no_more_outputs
updater-IsUpdatable m c u s h =
    let (d, e) = updater-parts c u h in
    let k = Constructs-IsCounted m c s in
    let (i, o) = close_flags c.psbt (omega (arith, k.byte)) in
    rw (← e) (record {
      counted =
          Constructs-IsCounted m (no_more_outputs (no_more_inputs c))
            (without_outputs _ (without_inputs c s));
      no_inputs = i;
      no_outputs = o;
      determined = d;
    })

-- The lock time is all that `id` needs.
id_ok :
    (compute_txid : Transaction → Txid) (to_bytes : PublicKey → List Byte) (p : Psbt) (l : LockTime)
    → determine_lock_time p ≡ ok l
    → (t : Txid) × (Psbts.id compute_txid to_bytes p ≡ ok t)
unfolding Psbts.id Psbts.id_tx Psbts.unsigned_tx
id_ok c b p l h = rw h (_, refl)

id_err :
    (compute_txid : Transaction → Txid) (to_bytes : PublicKey → List Byte) (p : Psbt)
    (e : DetermineLockTimeError)
    → determine_lock_time p ≡ err e
    → Psbts.id compute_txid to_bytes p ≡ err e
unfolding Psbts.id Psbts.id_tx Psbts.unsigned_tx
id_err c b p e h = rw h refl

module _ (compute_txid : Transaction → Txid) (to_bytes : PublicKey → List Byte) (u : Updater) where
  id_of_determined :
      (l : LockTime)
      → determine_lock_time u.psbt ≡ ok l
      → (t : Txid) × (Updates.id compute_txid to_bytes u ≡ ok t)
  unfolding Updates.id
  id_of_determined l d = let (t, e) = id_ok compute_txid to_bytes u.psbt l d in (t, rw e refl)

  id_of_conflict :
      (e : DetermineLockTimeError)
      → determine_lock_time u.psbt ≡ err e
      → Updates.id compute_txid to_bytes u ≡ panicked
  unfolding Updates.id
  id_of_conflict e d = rw (id_err compute_txid to_bytes u.psbt e d) refl

-- `Updater::id` panics exactly where the lock time of its PSBT cannot be determined.
pub id_panics_iff :
    (compute_txid : Transaction → Txid) (to_bytes : PublicKey → List Byte) (u : Updater)
    → (Updates.id compute_txid to_bytes u ≡ panicked)
      ↔ (determine_lock_time u.psbt ≡ err determine_lock_time_error)
id_panics_iff c b u = (forth (determine_lock_time-cases u.psbt), id_of_conflict c b u _)
  where
    forth :
        ((l : LockTime) × (determine_lock_time u.psbt ≡ ok l))
          ⊎ (determine_lock_time u.psbt ≡ err determine_lock_time_error)
        → Updates.id c b u ≡ panicked
        → determine_lock_time u.psbt ≡ err determine_lock_time_error
    forth (inl (l, d)) h = let (t, e) = id_of_determined c b u l d in cc
    forth (inr e) h = e
