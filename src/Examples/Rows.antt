-- ===== src/Examples/Rows.antt =====
-- A concrete decoder of many values, which are decoded one after the other.
use rust_psbt.Prelude.{
  ℕ, zero, suc, ◌≡◌, ◌+◌, ◌==◌, refl, if◌then◌else◌, List, [], ◌∷◌, ◌++◌, length, All, Option, none,
  some, Outcome, ok, err, map_err, ◌>>=◌, >>=-eq-ok, ==_iff, arith, inl, inr,
}
use rust_psbt.Primitives.{Byte}
use rust_psbt.Decoding.{Decoder, VecDecoder, Containers, Pushed, ready, needs_more}
use rust_psbt.Framing.Laws.{map_err-eq-ok}
use rust_psbt.Decoding.Ensures.{Fed, fresh, fed, Status-cases}
use rust_psbt.Psbt.Decoder.Laws.{VecFed, IsDecodedBy, DecodesExactly}
use rust_psbt.Psbt.Decoder.Laws as Exact
use rust_psbt.Examples.Wire.{measured}

-- Values one after the other: those that are missing, the decoder of the next, and those taken.
pub record Row (A S : Type 0) : Type 0 where
  pub missing : ℕ
  pub current : S
  pub taken : List A

module _ {A : Type 0} (d : Decoder A) where
  unfoldable pub push_row :
      ℕ → d.State → List A → List Byte → Outcome (Option d.Error) (Pushed (Row A d.State))
  push_row zero current taken bytes = ok (record {
    decoder = record { missing = 0; current = current; taken = taken };
    rest = bytes;
    status = ready;
  })
  push_row (suc n) current taken bytes = do
    p ← map_err some (d.push_bytes current bytes)
    elim p.status [
      | ready ↦ do
        a ← map_err some (d.end p.decoder)
        push_row n d.default (taken ++ (a ∷ [])) p.rest
      | needs_more ↦ ok (record {
        decoder = record { missing = suc n; current = p.decoder; taken = taken };
        rest = p.rest;
        status = needs_more;
      })
    ]

  unfoldable pub end_row : ℕ → List A → Outcome (Option d.Error) (List A)
  end_row n taken = if n == 0 then ok taken else err none

  abbrev pub row : VecDecoder A
  row = record {
    State = Row A d.State;
    Error = Option d.Error;
    new = λ n. record { missing = n; current = d.default; taken = [] };
    push_bytes = λ s bytes. push_row s.missing s.current s.taken bytes;
    end = λ s. end_row s.missing s.taken;
    read_limit = λ s. d.read_limit s.current;
  }

  -- The row has taken decoded values, and all that are not missing.
  record IsRow (n : ℕ) (s : Row A d.State) : Type 0 where
    count : length s.taken + s.missing ≡ n
    current : Fed d s.current
    each : All (IsDecodedBy d) s.taken

  length-snoc : (xs : List A) (x : A) → length (xs ++ (x ∷ [])) ≡ suc (length xs)
  length-snoc [] x = refl
  length-snoc (y ∷ xs) x = ground (arith, length-snoc xs x)

  All-snoc : (P : A → Type 0) (xs : List A) (x : A) → All P xs → P x → All P (xs ++ (x ∷ []))
  All-snoc P [] x h p = (p, tt)
  All-snoc P (y ∷ xs) x h p = (h.0, All-snoc P xs x h.1 p)

  push_row-IsRow :
      (n missing : ℕ) (current : d.State) (taken : List A) (bytes : List Byte)
      (p : Pushed (Row A d.State))
      → push_row missing current taken bytes ≡ ok p
      → IsRow n (record { missing = missing; current = current; taken = taken })
      → IsRow n p.decoder
  unfolding push_row
  push_row-IsRow n zero current taken bytes p run h = ground arith
  push_row-IsRow n (suc m) current taken bytes p run h =
      let (q, pushed, next) = >>=-eq-ok (map_err some (d.push_bytes current bytes)) _ run in
      let left : Fed d q.decoder = fed bytes q h.current (map_err-eq-ok _ _ pushed) in
      elim (Status-cases q.status) [
        | inl is_ready ↦
            let (a, ended, after) =
              >>=-eq-ok (map_err some (d.end q.decoder)) _ (rw is_ready at next) in
            push_row-IsRow n m d.default (taken ++ (a ∷ [])) q.rest p after (record {
              count = omega (arith, h.count, length-snoc taken a);
              current = fresh;
              each =
                  All-snoc (IsDecodedBy d) taken a h.each
                    (record { state = q.decoder; was_fed = left; ended = map_err-eq-ok _ _ ended });
            })
        | inr waits ↦
            let row' : IsRow n (record { missing = suc m; current = q.decoder; taken = taken }) =
              record { count = h.count; current = left; each = h.each } in
            ground (arith, waits, next, row')
      ]

  VecFed-IsRow : (n : ℕ) {s : Row A d.State} → VecFed row n s → IsRow n s
  VecFed-IsRow n Exact.fresh = record { count = omega arith; current = fresh; each = tt }
  VecFed-IsRow n (Exact.fed {s} bytes p before run) =
      push_row-IsRow n s.missing s.current s.taken bytes p run (VecFed-IsRow n before)

  row-exactly :
      (n : ℕ) (s : Row A d.State) (xs : List A)
      → VecFed row n s
      → end_row s.missing s.taken ≡ ok xs
      → (length xs ≡ n) × All (IsDecodedBy d) xs
  unfolding end_row
  row-exactly n s xs was_fed ended =
      let h = VecFed-IsRow n was_fed in
      let count = h.count in let each = h.each in ground (arith, count, each, ==_iff s.missing 0)

abbrev pub containers : Containers
containers = record { magic = measured (some 4) (λ bytes. bytes); exact_vec = λ A d. row d }

pub containers-exact : DecodesExactly containers
containers-exact A d n s xs was_fed ended = row-exactly d n s xs was_fed ended
