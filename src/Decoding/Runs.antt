-- ===== src/Decoding/Runs.antt =====
-- A `loop` that takes some rounds from one state to another, whatever fuel is left after them.
use rust_psbt.Prelude.{
  ℕ, zero, suc, ◌≡◌, ◌≢◌, refl, ◌∙◌, ap, arith, List, [], ◌∷◌, ◌++◌, length, false, ◌==◌, none,
  some, Outcome, ok, Outcome-cases, inl, inr,
}
use mathlib.Core.List.{append_assoc}
use rust_psbt.Primitives.{Byte}
use rust_psbt.Consts.{psbt_separator}
use rust_psbt.Decoding.{Decoder, Round, return, continue, Pushed, rounds}
use rust_psbt.Decoding.Contracts.{Reads}
use rust_psbt.Codecs.{Codecs, Encoders}
use rust_psbt.Framing.{framed, from_sized_kv}
use rust_psbt.Framing.Laws.{value_decoder-Reads}
use rust_psbt.Keys.{Key}
use rust_psbt.Keys.Codec.{key_decoder, key_push_bytes, key_end, parse_body}

-- `n` rounds more.
abbrev pub after : ℕ → ℕ → ℕ
after zero fuel = fuel
after (suc n) fuel = suc (after n fuel)

after-after : (n m fuel : ℕ) → after (after n m) fuel ≡ after n (after m fuel)
after-after zero m fuel = refl
after-after (suc n) m fuel = ap suc (after-after n m fuel)

module _ {S E : Type 0} (round : S → List Byte → Outcome E (Round S)) where
  abbrev pub Runs : S → List Byte → S → List Byte → Type 0
  Runs d bytes d' rest =
      (n : ℕ) × ((fuel : ℕ) → rounds round (after n fuel) d bytes ≡ rounds round fuel d' rest)

  pub Runs-refl : (d : S) (bytes : List Byte) → Runs d bytes d bytes
  Runs-refl d bytes = (0, λ fuel. refl)

  pub Runs-trans :
      (d : S) (bytes : List Byte) (d' : S) (bytes' : List Byte) (d'' : S) (bytes'' : List Byte)
      → Runs d bytes d' bytes'
      → Runs d' bytes' d'' bytes''
      → Runs d bytes d'' bytes''
  Runs-trans d bytes d' bytes' d'' bytes'' (n, r) (m, r') =
      (after n m, λ fuel. rw (after-after n m fuel) (r (after m fuel) ∙ r' fuel))

  -- Two rounds that go on.
  pub Runs-two :
      (d : S) (bytes : List Byte) (d' : S) (bytes' : List Byte) (d'' : S) (bytes'' : List Byte)
      → round d bytes ≡ ok (continue d' bytes')
      → round d' bytes' ≡ ok (continue d'' bytes'')
      → Runs d bytes d'' bytes''
  unfolding rounds
  Runs-two d bytes d' bytes' d'' bytes'' first second = (2, λ fuel. ground (arith, first, second))

  -- A round that returns ends the loop.
  pub rounds_return :
      (d : S) (bytes : List Byte) (p : Pushed S)
      → round d bytes ≡ ok (return p)
      → rounds round 1 d bytes ≡ some (ok p)
  unfolding rounds
  rounds_return d bytes p run = ground (arith, run)

  -- More fuel changes no answer.
  pub rounds_agree :
      (f g : ℕ) (d : S) (bytes : List Byte) {answer : Outcome E (Pushed S)}
      → rounds round f d bytes ≡ some answer
      → rounds round g d bytes ≢ none
      → rounds round g d bytes ≡ some answer
  unfolding rounds
  rounds_agree zero g d bytes run more = cc
  rounds_agree (suc f) zero d bytes run more = absurd (more refl)
  rounds_agree (suc f) (suc g) d bytes {answer} run more = elim (Outcome-cases (round d bytes)) [
    | inl (return q, e) ↦ ground (arith, e)
    | inl (continue d' rest, e) ↦
        let run' : rounds round f d' rest ≡ some answer = ground (arith, e, run) in
        let more' : rounds round g d' rest ≢ none = λ h. more (ground (arith, e, h)) in
        ground (arith, e, rounds_agree f g d' rest run' more')
    | inr (inl (x, e)) ↦ ground (arith, e)
    | inr (inr e) ↦ ground (arith, e)
  ]

-- Bytes behind their length.
abbrev pub prefixed : Encoders → List Byte → List Byte
prefixed e code = e.compact_size (length code) ++ code

module _ (c : Codecs) (e : Encoders) where
  -- The encoding of a key is not the separator, and upstream's decoders read it back.
  pub record ReadsKey (key : Key) (code : List Byte) : Type 0 where
    pub first : Byte
    pub others : List Byte
    pub starts : prefixed e code ≡ first ∷ others
    pub no_separator : (first == psbt_separator) ≡ false
    pub body : Reads c.byte_vec code (prefixed e code)
    pub body_first : Byte
    pub body_others : List Byte
    pub body_starts : code ≡ body_first ∷ body_others
    pub pushed : Pushed c.compact_size_u64.State
    pub push : c.compact_size_u64.push_bytes c.compact_size_u64.default code ≡ ok pushed
    pub keytype : c.compact_size_u64.end pushed.decoder ≡ ok key.type_value
    pub key_data : pushed.rest ≡ key.key

  parse_body-ok : (key : Key) (code : List Byte) → ReadsKey key code → parse_body c code ≡ ok key
  unfolding parse_body
  parse_body-ok key [] k = absurd (ground (arith, k.body_starts))
  parse_body-ok key (b ∷ code) k = ground (arith, k.push, k.keytype, k.key_data)

  pub key_decoder-Reads :
      (key : Key) (code : List Byte)
      → ReadsKey key code
      → Reads (key_decoder c) key (prefixed e code)
  unfolding key_push_bytes key_end
  key_decoder-Reads key code k rest =
      let (s, pushed, ended) = k.body rest in
      (s, rw pushed refl, rw ended (parse_body-ok key code k))

  -- A value behind its length is read back through the frame.
  pub record ReadsValue {A : Type 0} (d : Decoder A) (a : A) (code : List Byte) : Type 0 where
    pub size : Reads c.compact_size (length code) (e.compact_size (length code))
    pub value : Reads d a code

  pub framed-Reads :
      {A : Type 0} (d : Decoder A) (a : A) (code : List Byte)
      → ReadsValue d a code
      → Reads (framed c d) a (prefixed e code)
  framed-Reads d a code r =
      value_decoder-Reads c.compact_size d a (e.compact_size (length code)) code r.size r.value

  pub from_sized_kv-prefixed :
      (key value rest : List Byte)
      → from_sized_kv e.compact_size key value ++ rest
        ≡ prefixed e key ++ (prefixed e value ++ rest)
  unfolding from_sized_kv
  from_sized_kv-prefixed key value rest = simp append_assoc
