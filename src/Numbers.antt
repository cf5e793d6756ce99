-- ===== src/Numbers.antt =====
-- src/version.rs, src/map/required_height_lock_time.rs, src/map/vout.rs and src/map/count.rs: the
-- numbers that carry a restriction, without their codecs.
use rust_psbt.Prelude.{
  ℕ, ◌≡◌, ◌↔◌, ◌<◌, ◌⊎◌, refl, Option, none, some, Outcome, ok, err, ok_or, ◌==◌, if◌then◌else◌,
  arith, ◌>>=◌,
}

pub record Version : Type 0 where
  pub number : ℕ

abbrev pub version_zero : Version
version_zero = record { number = 0 }

abbrev pub version_two : Version
version_two = record { number = 2 }

abbrev pub version_to_u32 : Version → ℕ
version_to_u32 v = v.number

pub data UnsupportedVersionError : Type 0 where
  unsupported_version : ℕ → UnsupportedVersionError

-- `TryFrom<u32>`.
unfoldable pub version_of : ℕ → Outcome UnsupportedVersionError Version
version_of n =
    if n == 0
    then ok version_zero
    else (if n == 2 then ok version_two else err (unsupported_version n))

-- A number is read as a version exactly if it is 0 or 2, and is written back as it was.
version_of_iff :
    (n : ℕ) (v : Version) → (version_of n ≡ ok v) ↔ (((n ≡ 0) ⊎ (n ≡ 2)) × (version_to_u32 v ≡ n))
unfolding version_of
version_of_iff n v = (λ h. ground arith, λ (c, e). ground arith)

-- A block height, by its consensus value.
pub record RequiredHeightLockTime : Type 0 where
  pub height : ℕ

pub data RequiredHeightLockTimeError : Type 0 where
  zero out_of_range : RequiredHeightLockTimeError

-- `TryFrom<Height>`.
unfoldable pub required_of_height : ℕ → Outcome RequiredHeightLockTimeError RequiredHeightLockTime
required_of_height height =
    if height == 0 then err RequiredHeightLockTimeError.zero else ok (record { height = height })

-- `from_consensus`, over upstream's reader of a height.
unfoldable pub required_from_consensus :
    (ℕ → Option ℕ) → ℕ → Outcome RequiredHeightLockTimeError RequiredHeightLockTime
unfolding required_of_height
required_from_consensus height_from_consensus n = do
  height ← ok_or (height_from_consensus n) out_of_range
  required_of_height height

abbrev pub to_height : RequiredHeightLockTime → ℕ
to_height r = r.height

-- Upstream documents that a height is a number below 500,000,000, and is that number.
abbrev pub ReadsHeights : (ℕ → Option ℕ) → Type 0
ReadsHeights read = (n h : ℕ) → (read n ≡ some h) ↔ ((n < 500_000_000) × (h ≡ n))

-- Where upstream reads heights as it documents, a required height is read exactly from the numbers
-- above 0 and below 500,000,000, and is that number.
pub required_from_consensus_iff :
    (read : ℕ → Option ℕ) (n : ℕ) (r : RequiredHeightLockTime)
    → ReadsHeights read
    → (required_from_consensus read n ≡ ok r) ↔ ((0 < n) × (n < 500_000_000) × (to_height r ≡ n))
unfolding required_from_consensus required_of_height
required_from_consensus_iff read n r d = (forth (read n) refl, λ (p, b, e). back p b e)
  where
    forth :
        (o : Option ℕ)
        → read n ≡ o
        → required_from_consensus read n ≡ ok r
        → (0 < n) × (n < 500_000_000) × (to_height r ≡ n)
    forth none e h = ground arith
    forth (some k) e h = let (b, q) = (d n k).0 e in (ground arith, b, ground arith)

    back : 0 < n → n < 500_000_000 → to_height r ≡ n → required_from_consensus read n ≡ ok r
    back p b e = let f = (d n n).1 (b, refl) in ground arith

-- `Vout`, a `u32`, and `Count`, a `usize`, with their conversions.
pub record Vout : Type 0 where
  pub number : ℕ

abbrev pub vout_of : ℕ → Vout
vout_of n = record { number = n }

abbrev pub vout_to_u32 : Vout → ℕ
vout_to_u32 v = v.number

pub record Count : Type 0 where
  pub number : ℕ

abbrev pub count_of : ℕ → Count
count_of n = record { number = n }

abbrev pub count_to_usize : Count → ℕ
count_to_usize c = c.number
