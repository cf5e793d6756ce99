-- ===== src/Psbt/Bip370.antt =====
-- The outcomes of `Psbt::determine_lock_time`, against the rules of BIP-370.
use rust_psbt.Prelude.{
  ℕ, ◌≡◌, ◌⊎◌, inl, inr, refl, Bool, true, false, ◌&&◌, Option, none, some, List, any, all, All,
  Any, any-true, any-false, all_of_All, All-imp, Any-clash, Any-imp, Option-cases, Bool-cases,
  unwrap_or, Outcome, ok, err, arith,
}
use rust_psbt.Primitives.{LockTime, blocks, seconds}
use rust_psbt.Input.{
  Input, has_lock_time, requires_time_based_lock_time, requires_height_based_lock_time,
  is_satisfied_with_height_based_lock_time,
}
use rust_psbt.Psbt.{
  Psbt, DetermineLockTimeError, determine_lock_time_error, choose_lock_time, determine_lock_time_of,
  determine_lock_time,
}
use rust_psbt.Psbt.LockTimes.{Fits, IsLeast, height_chosen, time_chosen}

module _ (is : List Input) (fallback : Option LockTime) where
  -- The conflict: an input that supports times alone, and one that supports heights alone.
  abbrev conflict : Bool
  conflict = any requires_time_based_lock_time is && any requires_height_based_lock_time is

  on_conflict : conflict ≡ true → determine_lock_time_of is fallback ≡ err determine_lock_time_error
  unfolding determine_lock_time_of
  on_conflict h = rw h

  on_none :
      conflict ≡ false
      → any has_lock_time is ≡ false
      → determine_lock_time_of is fallback ≡ ok (unwrap_or fallback (blocks 0))
  unfolding determine_lock_time_of choose_lock_time
  on_none h k = rw (h, k)

  on_height :
      conflict ≡ false
      → any has_lock_time is ≡ true
      → all is_satisfied_with_height_based_lock_time is ≡ true
      → (m : ℕ) × (determine_lock_time_of is fallback ≡ ok (blocks m)) × IsLeast is (blocks m)
  unfolding determine_lock_time_of choose_lock_time
  on_height h k s = let (m, e, l) = height_chosen is k s in (m, rw (h, k, s, e), l)

  on_time :
      conflict ≡ false
      → any has_lock_time is ≡ true
      → all is_satisfied_with_height_based_lock_time is ≡ false
      → (m : ℕ) × (determine_lock_time_of is fallback ≡ ok (seconds m)) × IsLeast is (seconds m)
  unfolding determine_lock_time_of choose_lock_time
  on_time h k s = let (m, e, l) = time_chosen is h s in (m, rw (h, k, s, e), l)

-- An input that has a time alone, or a height alone.
abbrev pub NeedsTime : Input → Type 0
NeedsTime i = (t : ℕ) × (i.min_time ≡ some t) × (i.min_height ≡ none)

abbrev pub NeedsHeight : Input → Type 0
NeedsHeight i = (h : ℕ) × (i.min_height ≡ some h) × (i.min_time ≡ none)

needs_time : (i : Input) → requires_time_based_lock_time i ≡ true → NeedsTime i
unfolding requires_time_based_lock_time
needs_time i h = elim (Option-cases i.min_time) [
  | inl e ↦ absurd (ground arith)
  | inr (t, e) ↦ (t, e, ground arith)
]

needs_height : (i : Input) → requires_height_based_lock_time i ≡ true → NeedsHeight i
unfolding requires_height_based_lock_time
needs_height i h = elim (Option-cases i.min_height) [
  | inl e ↦ absurd (ground arith)
  | inr (t, e) ↦ (t, e, ground arith)
]

-- The answers of the function, as what they mean for the inputs.
pub data Answer (is : List Input) (fallback : Option LockTime)
    : Outcome DetermineLockTimeError LockTime → Type 0 where
  conflicting :
      Any NeedsTime is → Any NeedsHeight is → Answer is fallback (err determine_lock_time_error)
  unlocked :
      All (λ i. (i.min_time ≡ none) × (i.min_height ≡ none)) is
      → Answer is fallback (ok (unwrap_or fallback (blocks 0)))
  locked_by_height : (m : ℕ) → IsLeast is (blocks m) → Answer is fallback (ok (blocks m))
  locked_by_time :
      (m : ℕ)
      → IsLeast is (seconds m)
      → ((n : ℕ) → All (Fits (blocks n)) is → ⊥)
      → Answer is fallback (ok (seconds m))

not_by_height :
    (is : List Input)
    → all is_satisfied_with_height_based_lock_time is ≡ false
    → (n : ℕ) → All (Fits (blocks n)) is
    → ⊥
not_by_height is s n h =
    let t =
      all_of_All is_satisfied_with_height_based_lock_time is
        (All-imp _ _ (λ i. supports_height i n) is h) in
    cc
  where
    supports_height :
        (i : Input) (n : ℕ) → Fits (blocks n) i → is_satisfied_with_height_based_lock_time i ≡ true
    supports_height i n f =
        unfold is_satisfied_with_height_based_lock_time requires_height_based_lock_time in
        ground arith

lacks : (i : Input) → has_lock_time i ≡ false → (i.min_time ≡ none) × (i.min_height ≡ none)
unfolding has_lock_time
lacks i h = ground arith

-- `determine_lock_time` never panics, and its answer is the one of BIP-370: a conflict only where
-- some input needs a time and another a height; the fallback, or 0, only where no input has a lock
-- time; else the least lock time that fits every input, a time only where no height fits all.
pub determine_lock_time-Answer :
    (p : Psbt) → Answer p.inputs p.global.fallback_lock_time (determine_lock_time p)
unfolding determine_lock_time
determine_lock_time-Answer p =
    let is = p.inputs in
    let fallback = p.global.fallback_lock_time in
    elim (Bool-cases (conflict is fallback)) [
      | inl h ↦ rw (on_conflict is fallback h) (
          conflicting (Any-imp _ _ needs_time is (any-true _ is (ground arith)))
            (Any-imp _ _ needs_height is (any-true _ is (ground arith))))
      | inr h ↦ elim (Bool-cases (any has_lock_time is)) [
        | inr k ↦ rw (on_none is fallback h k) (unlocked (All-imp _ _ lacks is (any-false _ is k)))
        | inl k ↦ elim (Bool-cases (all is_satisfied_with_height_based_lock_time is)) [
          | inl s ↦ let (m, e, l) = on_height is fallback h k s in rw e (locked_by_height m l)
          | inr s ↦
              let (m, e, l) = on_time is fallback h k s in
              rw e (locked_by_time m l (not_by_height is s))
        ]
      ]
    ]

time_not_height : (n : ℕ) (i : Input) → NeedsTime i → Fits (blocks n) i → ⊥
time_not_height n i (t, e, none') f = ground arith

height_not_time : (n : ℕ) (i : Input) → NeedsHeight i → Fits (seconds n) i → ⊥
height_not_time n i (h, e, none') f = ground arith

no_conflict :
    (is : List Input) (l : LockTime) → All (Fits l) is → Any NeedsTime is → Any NeedsHeight is → ⊥
no_conflict is (blocks n) h t k = Any-clash _ _ (time_not_height n) is t h
no_conflict is (seconds n) h t k = Any-clash _ _ (height_not_time n) is k h

lacks-Fits : (l : LockTime) (i : Input) → (i.min_time ≡ none) × (i.min_height ≡ none) → Fits l i
lacks-Fits (blocks n) i h = ground arith
lacks-Fits (seconds n) i h = ground arith

Answer-found :
    (is : List Input) (fallback : Option LockTime) (r : Outcome DetermineLockTimeError LockTime)
    (l : LockTime)
    → All (Fits l) is
    → Answer is fallback r
    → (m : LockTime) × (r ≡ ok m) × All (Fits m) is
Answer-found is fallback r l h (conflicting t k) = absurd (no_conflict is l h t k)
Answer-found is fallback r l h (unlocked u) =
    let m = unwrap_or fallback (blocks 0) in (m, refl, All-imp _ _ (lacks-Fits m) is u)
Answer-found is fallback r l h (locked_by_height m u) = (blocks m, refl, u.0)
Answer-found is fallback r l h (locked_by_time m u n) = (seconds m, refl, u.0)

-- If some lock time fits every input, `determine_lock_time` returns a lock time, and that one fits
-- every input.
pub determine_lock_time_complete :
    (p : Psbt) (l : LockTime)
    → All (Fits l) p.inputs
    → (m : LockTime) × (determine_lock_time p ≡ ok m) × All (Fits m) p.inputs
determine_lock_time_complete p l h =
    Answer-found p.inputs p.global.fallback_lock_time (determine_lock_time p) l h
      (determine_lock_time-Answer p)

Answer-cases :
    (is : List Input) (fallback : Option LockTime) (r : Outcome DetermineLockTimeError LockTime)
    → Answer is fallback r
    → ((l : LockTime) × (r ≡ ok l)) ⊎ (r ≡ err determine_lock_time_error)
Answer-cases is fallback r (conflicting t k) = inr refl
Answer-cases is fallback r (unlocked u) = inl (_, refl)
Answer-cases is fallback r (locked_by_height m u) = inl (_, refl)
Answer-cases is fallback r (locked_by_time m u n) = inl (_, refl)

-- No panic, for the code that asks for the lock time.
pub determine_lock_time-cases :
    (p : Psbt)
    → ((l : LockTime) × (determine_lock_time p ≡ ok l))
      ⊎ (determine_lock_time p ≡ err determine_lock_time_error)
determine_lock_time-cases p = Answer-cases _ _ _ (determine_lock_time-Answer p)
