-- ===== src/Flags/Laws.antt =====
-- The flags as three independent bits of a byte.
use rust_psbt.Prelude.{
  ℕ, ◌≡◌, ◌<◌, refl, Bool, true, false, not, ◌&&◌, ◌||◌, bit_and, ltb, ◌==◌, arith, if◌then◌else◌,
}
use rust_psbt.Prelude.Table.{holds_below, holds_below_sound}
use rust_psbt.Sighash.{SighashTypes, PsbtSighashType, is_anyone_can_pay, is_none, is_single}
use rust_psbt.Flags.{
  TxModifiableFlags, clear_sighash_single, set_inputs_modifiable, set_outputs_modifiable,
  set_sighash_single, clear_inputs_modifiable, clear_outputs_modifiable, is_inputs_modifiable,
  is_outputs_modifiable, has_sighash_single, apply_sighash,
}

-- The bits that no flag uses.
abbrev pub reserved : TxModifiableFlags → ℕ
reserved f = bit_and f.bits 0xf8

-- What a byte says, as three tests, the reserved bits and the range.
pub record Reads (f : TxModifiableFlags) (i o s : Bool) (r : ℕ) : Type 0 where
  pub inputs : is_inputs_modifiable f ≡ i
  pub outputs : is_outputs_modifiable f ≡ o
  pub single : has_sighash_single f ≡ s
  pub rest : reserved f ≡ r
  pub byte : f.bits < 256

bool_eq : Bool → Bool → Bool
bool_eq true b = b
bool_eq false b = not b

same : TxModifiableFlags → Bool → Bool → Bool → ℕ → Bool
unfolding bool_eq is_inputs_modifiable is_outputs_modifiable has_sighash_single
same f i o s r =
    bool_eq (is_inputs_modifiable f) i
    && bool_eq (is_outputs_modifiable f) o
    && bool_eq (has_sighash_single f) s
    && reserved f == r
    && ltb f.bits 256

bool_eq_sound : (a b : Bool) → bool_eq a b ≡ true → a ≡ b
unfolding bool_eq
bool_eq_sound true b h = ground arith
bool_eq_sound false b h = ground arith

same_sound :
    (f : TxModifiableFlags) (i o s : Bool) (r : ℕ) → same f i o s r ≡ true → Reads f i o s r
unfolding same
same_sound f i o s r h = ground (
  arith,
  bool_eq_sound (is_inputs_modifiable f) i,
  bool_eq_sound (is_outputs_modifiable f) o,
  bool_eq_sound (has_sighash_single f) s,
)

-- Each write, on every byte.
module _ (f : TxModifiableFlags) (byte : f.bits < 256) where
  abbrev i : Bool
  i = is_inputs_modifiable f

  abbrev o : Bool
  o = is_outputs_modifiable f

  abbrev s : Bool
  s = has_sighash_single f

  pub set_inputs-Reads : Reads (set_inputs_modifiable f) true o s (reserved f)
  unfolding holds_below same set_inputs_modifiable
  set_inputs-Reads = same_sound _ _ _ _ _ (
      holds_below_sound 256
        (λ n.
          let g : TxModifiableFlags = record { bits = n } in
          same (set_inputs_modifiable g) true (is_outputs_modifiable g) (has_sighash_single g)
            (reserved g))
        f.bits refl byte)

  pub set_outputs-Reads : Reads (set_outputs_modifiable f) i true s (reserved f)
  unfolding holds_below same set_outputs_modifiable
  set_outputs-Reads = same_sound _ _ _ _ _ (
      holds_below_sound 256
        (λ n.
          let g : TxModifiableFlags = record { bits = n } in
          same (set_outputs_modifiable g) (is_inputs_modifiable g) true (has_sighash_single g)
            (reserved g))
        f.bits refl byte)

  pub set_single-Reads : Reads (set_sighash_single f) i o true (reserved f)
  unfolding holds_below same set_sighash_single
  set_single-Reads = same_sound _ _ _ _ _ (
      holds_below_sound 256
        (λ n.
          let g : TxModifiableFlags = record { bits = n } in
          same (set_sighash_single g) (is_inputs_modifiable g) (is_outputs_modifiable g) true
            (reserved g))
        f.bits refl byte)

  pub clear_inputs-Reads : Reads (clear_inputs_modifiable f) false o s (reserved f)
  unfolding holds_below same clear_inputs_modifiable
  clear_inputs-Reads = same_sound _ _ _ _ _ (
      holds_below_sound 256
        (λ n.
          let g : TxModifiableFlags = record { bits = n } in
          same (clear_inputs_modifiable g) false (is_outputs_modifiable g) (has_sighash_single g)
            (reserved g))
        f.bits refl byte)

  pub clear_outputs-Reads : Reads (clear_outputs_modifiable f) i false s (reserved f)
  unfolding holds_below same clear_outputs_modifiable
  clear_outputs-Reads = same_sound _ _ _ _ _ (
      holds_below_sound 256
        (λ n.
          let g : TxModifiableFlags = record { bits = n } in
          same (clear_outputs_modifiable g) (is_inputs_modifiable g) false (has_sighash_single g)
            (reserved g))
        f.bits refl byte)

  pub clear_single-Reads : Reads (clear_sighash_single f) i o false (reserved f)
  unfolding holds_below same clear_sighash_single
  clear_single-Reads = same_sound _ _ _ _ _ (
      holds_below_sound 256
        (λ n.
          let g : TxModifiableFlags = record { bits = n } in
          same (clear_sighash_single g) (is_inputs_modifiable g) (is_outputs_modifiable g) false
            (reserved g))
        f.bits refl byte)

pub read_back :
    (f : TxModifiableFlags)
    → f.bits < 256
    → Reads f (is_inputs_modifiable f) (is_outputs_modifiable f) (has_sighash_single f) (reserved f)
read_back f byte = record { inputs = refl; outputs = refl; single = refl; rest = refl; byte = byte }

-- The three `if` statements, on any byte.
module _ (f : TxModifiableFlags) (i o s b : Bool) (r : ℕ) (v : Reads f i o s r) where
  keep_inputs : Reads (if not b then clear_inputs_modifiable f else f) (i && b) o s r
  keep_inputs = ground (arith, clear_inputs-Reads f v.byte)

  keep_outputs : Reads (if not b then clear_outputs_modifiable f else f) i (o && b) s r
  keep_outputs = ground (arith, clear_outputs-Reads f v.byte)

  record_single : Reads (if b then set_sighash_single f else f) i o (s || b) r
  record_single = ground (arith, set_single-Reads f v.byte)

-- On a byte of flags, a signature with the sighash type `t` keeps inputs modifiable only if `t` is ANYONECANPAY, keeps
-- outputs modifiable only if `t` is NONE, and records a SINGLE; no modifiable flag is set, and the
-- bits of no flag stay.
pub apply_sighash-Reads :
    (s : SighashTypes) (t : PsbtSighashType) (f : TxModifiableFlags)
    → f.bits < 256
    → Reads
        (apply_sighash s t f)
        (is_inputs_modifiable f && is_anyone_can_pay s t)
        (is_outputs_modifiable f && is_none s t)
        (has_sighash_single f || is_single s t)
        (reserved f)
unfolding apply_sighash
apply_sighash-Reads s t f byte =
    record_single _ _ _ _ _ _
      (keep_outputs _ _ _ _ _ _ (keep_inputs _ _ _ _ _ _ (read_back f byte)))
