-- ===== src/Global/Xpubs.antt =====
-- Which key source `Global::combine` keeps for an extended key that both maps hold.
use native.Mathlib.Nat.{sub_self}
use mathlib.Core.List.{append_assoc}
use rust_psbt.Prelude.{
  ℕ, zero, suc, ap, sym, ◌∙◌, length-append, ◌≡◌, ◌≢◌, inl, inr, refl, ◌-◌, ◌≤◌, ◌<◌, true, false,
  [], ◌∷◌, ◌++◌, bytes_eq, bytes_eq→eq, bytes_eq_refl, length, drop, ok, err, panicked, Bool-cases,
  arith,
}
use rust_psbt.Primitives.{KeySource, DerivationPath}
use rust_psbt.Global.{Xpub}
use rust_psbt.Global.Combine.{
  Choice, keep_mine, take_theirs, inconsistent_key_sources, mine_covers, theirs_covers, slice_from,
  checked_minus, choose,
}

-- The path `short` ends the path `long`.
abbrev pub IsSuffix : DerivationPath → DerivationPath → Type 0
IsSuffix short long = (front : DerivationPath) × (front ++ short ≡ long)

suffix_of_drop : (n : ℕ) (l : DerivationPath) → IsSuffix (drop n l) l
suffix_of_drop zero l = ([], refl)
suffix_of_drop (suc n) [] = ([], refl)
suffix_of_drop (suc n) (x ∷ l) =
    let (front, e) = suffix_of_drop n l in (x ∷ front, ap (λ t. x ∷ t) e)

drop_front : (front short : DerivationPath) → drop (length front) (front ++ short) ≡ short
drop_front [] short = refl
drop_front (x ∷ front) short = drop_front front short

-- The slice that the source compares is the whole shorter path exactly when it is a suffix.
tail_of_suffix :
    (short long : DerivationPath)
    → IsSuffix short long
    → drop (length long - length short) long ≡ short
tail_of_suffix short long (front, e) =
    let n : length long - length short ≡ length front =
      omega (arith, length-append front short, ap length e) in
    rw n (rw (← e) (drop_front front short))

pub IsSuffix-refl : (d : DerivationPath) → IsSuffix d d
IsSuffix-refl d = ([], refl)

pub IsSuffix-trans : (a b c : DerivationPath) → IsSuffix a b → IsSuffix b c → IsSuffix a c
IsSuffix-trans a b c (f, p) (g, q) = (g ++ f, append_assoc g f a ∙ ap (λ t. g ++ t) p ∙ q)

suffix_of_tail :
    (short long : DerivationPath) (n : ℕ)
    → bytes_eq short (drop n long) ≡ true
    → IsSuffix short long
suffix_of_tail short long n h =
    let e : short ≡ drop n long = bytes_eq→eq _ _ h in rw e (suffix_of_drop n long)

suffix_flip : (a b : DerivationPath) → length b ≤ length a → IsSuffix a b → IsSuffix b a
suffix_flip a b l ([], e) = ([], sym e)
suffix_flip a b l (x ∷ front, e) = absurd (omega (arith, length-append front a, ap length e))

-- The source that is in the map after the choice.
abbrev pub chosen : Choice → KeySource → KeySource → KeySource
chosen keep_mine theirs mine = mine
chosen take_theirs theirs mine = theirs

module _ (xpub : Xpub) (theirs mine : KeySource) where
  mine_covers-suffix : mine_covers theirs mine ≡ true → IsSuffix theirs.1 mine.1
  unfolding mine_covers
  mine_covers-suffix h = elim (Bool-cases (bytes_eq theirs.1 mine.1)) [
    | inl e ↦ rw (bytes_eq→eq _ _ e) (IsSuffix-refl mine.1)
    | inr e ↦ suffix_of_tail theirs.1 mine.1 (length mine.1 - length theirs.1) (ground arith)
  ]

  theirs_covers-suffix : theirs_covers theirs mine ≡ ok true → IsSuffix mine.1 theirs.1
  unfolding theirs_covers slice_from checked_minus
  theirs_covers-suffix h =
      suffix_of_tail mine.1 theirs.1 (length theirs.1 - length mine.1) (ground arith)

  mine_covers_not : ¬ IsSuffix theirs.1 mine.1 → mine_covers theirs mine ≡ false
  mine_covers_not n = elim (Bool-cases (mine_covers theirs mine)) [
    | inl e ↦ absurd (n (mine_covers-suffix e))
    | inr e ↦ e
  ]

  theirs_covers_panics : length theirs.1 < length mine.1 → theirs_covers theirs mine ≡ panicked
  unfolding theirs_covers checked_minus
  theirs_covers_panics l = ground arith

  theirs_covers_tail :
      length mine.1 ≤ length theirs.1
      → theirs_covers theirs mine
        ≡ ok (bytes_eq mine.1 (drop (length theirs.1 - length mine.1) theirs.1))
  unfolding theirs_covers checked_minus slice_from
  theirs_covers_tail l = ground arith

  mine_covers_same : theirs.1 ≡ mine.1 → theirs.0 ≢ mine.0 → mine_covers theirs mine ≡ false
  unfolding mine_covers
  mine_covers_same p f = ground (arith, ap length p)

  theirs_covers_same : theirs.1 ≡ mine.1 → theirs_covers theirs mine ≡ ok true
  theirs_covers_same p =
      theirs_covers_tail (omega (arith, ap length p))
      ∙ rw (p, sub_self (length mine.1), bytes_eq_refl mine.1)

  -- A choice keeps a path that both paths end.
  pub choose-IsSuffix :
      (c : Choice)
      → choose xpub theirs mine ≡ ok c
      → IsSuffix theirs.1 (chosen c theirs mine).1 × IsSuffix mine.1 (chosen c theirs mine).1
  unfolding choose
  choose-IsSuffix keep_mine h = (mine_covers-suffix (ground arith), IsSuffix-refl mine.1)
  choose-IsSuffix take_theirs h = (IsSuffix-refl theirs.1, theirs_covers-suffix (ground arith))

  -- A path that is shorter than the one in the map, and does not end it, aborts the run.
  pub choose_panics :
      length theirs.1 < length mine.1
      → ¬ IsSuffix theirs.1 mine.1
      → choose xpub theirs mine ≡ panicked
  unfolding choose
  choose_panics l n = rw (mine_covers_not n, theirs_covers_panics l)

  -- Two sources with one path and different fingerprints are no conflict: the other's is taken.
  pub choose_same_path :
      theirs.1 ≡ mine.1 → theirs.0 ≢ mine.0 → choose xpub theirs mine ≡ ok take_theirs
  unfolding choose
  choose_same_path p f = rw (mine_covers_same p f, theirs_covers_same p)

  theirs_covers_not :
      length mine.1 ≤ length theirs.1
      → ¬ IsSuffix mine.1 theirs.1
      → theirs_covers theirs mine ≡ ok false
  theirs_covers_not l n =
      elim (Bool-cases (bytes_eq mine.1 (drop (length theirs.1 - length mine.1) theirs.1))) [
        | inl e ↦ absurd (n (suffix_of_tail mine.1 theirs.1 _ e))
        | inr e ↦ theirs_covers_tail l ∙ ap ok e
      ]

  -- A path at least as long as the one in the map, which does not end it, is an error.
  pub choose_inconsistent :
      length mine.1 ≤ length theirs.1
      → ¬ IsSuffix mine.1 theirs.1
      → choose xpub theirs mine ≡ err (inconsistent_key_sources xpub)
  unfolding choose
  choose_inconsistent l n = rw (mine_covers_not not_theirs, theirs_covers_not l n)
    where
      not_theirs : ¬ IsSuffix theirs.1 mine.1
      not_theirs s = n (suffix_flip theirs.1 mine.1 l s)
