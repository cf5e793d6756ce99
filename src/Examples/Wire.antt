-- ===== src/Examples/Wire.antt =====
-- Concrete decoders and encoders: a compact size and a value of a fixed size take a byte, and a value
-- of its own frame is a length and its bytes.
use rust_psbt.Prelude.{
  ℕ, zero, suc, ◌≡◌, ◌<◌, ◌≤◌, ◌==◌, refl, if◌then◌else◌, List, [], ◌∷◌, ◌++◌, length, Option, none,
  some, Outcome, ok, err, arith,
}
use rust_psbt.Primitives.{Byte, blocks, EcdsaSighashType, TapSighashType}
use rust_psbt.Decoding.{Decoder, Pushed, ready, needs_more}
use rust_psbt.Decoding.Rounds.{IsFramed}
use rust_psbt.Codecs.{Codecs, Encoders}

-- Why a decoder fails: bytes are missing.
pub data Short : Type 0 where
  short : Short

-- One byte.
unfoldable pub push_one : Option Byte → List Byte → Outcome Short (Pushed (Option Byte))
push_one none [] = ok (record { decoder = none; rest = []; status = needs_more })
push_one none (b ∷ rest) = ok (record { decoder = some b; rest = rest; status = ready })
push_one (some b) bytes = ok (record { decoder = some b; rest = bytes; status = ready })

unfoldable pub end_one : {A : Type 0} → (Byte → A) → Option Byte → Outcome Short A
end_one f none = err short
end_one f (some b) = ok (f b)

abbrev pub one : {A : Type 0} → (Byte → A) → Decoder A
one f = record {
  State = Option Byte;
  Error = Short;
  default = none;
  push_bytes = push_one;
  end = end_one f;
  read_limit = λ s. 1;
}

pub one-IsFramed : {A : Type 0} → (f : Byte → A) → IsFramed (one f)
unfolding push_one
one-IsFramed f = record {
  shrinks = λ s bytes p run. ground arith;
  consumes = λ bytes p run done. ground arith;
}

-- A length and as many bytes: the bytes that are missing, once they are known, and those taken.
pub record Taken : Type 0 where
  pub missing : Option ℕ
  pub bytes : List Byte

unfoldable pub take_bytes : ℕ → List Byte → List Byte → Pushed Taken
take_bytes zero taken rest = record {
  decoder = record { missing = some 0; bytes = taken };
  rest = rest;
  status = ready;
}
take_bytes (suc n) taken [] = record {
  decoder = record { missing = some (suc n); bytes = taken };
  rest = [];
  status = needs_more;
}
take_bytes (suc n) taken (b ∷ rest) = take_bytes n (taken ++ (b ∷ [])) rest

unfoldable pub push_some : Option ℕ → List Byte → List Byte → Outcome Short (Pushed Taken)
unfolding take_bytes
push_some none taken [] =
    ok (record {
      decoder = record { missing = none; bytes = taken };
      rest = [];
      status = needs_more;
    })
push_some none taken (n ∷ bytes) = ok (take_bytes n taken bytes)
push_some (some n) taken bytes = ok (take_bytes n taken bytes)

unfoldable pub end_some : {A : Type 0} → (List Byte → A) → Option ℕ → List Byte → Outcome Short A
end_some f none taken = err short
end_some f (some n) taken = if n == 0 then ok (f taken) else err short

-- Values whose length is known, or is read first.
abbrev pub measured : {A : Type 0} → Option ℕ → (List Byte → A) → Decoder A
measured missing f = record {
  State = Taken;
  Error = Short;
  default = record { missing = missing; bytes = [] };
  push_bytes = λ s bytes. push_some s.missing s.bytes bytes;
  end = λ s. end_some f s.missing s.bytes;
  read_limit = λ s. 1;
}

take_bytes-length :
    (n : ℕ) (taken bytes : List Byte) → length (take_bytes n taken bytes).rest ≤ length bytes
unfolding take_bytes
take_bytes-length zero taken bytes = omega arith
take_bytes-length (suc n) taken [] = omega arith
take_bytes-length (suc n) taken (b ∷ bytes) =
    ground (arith, take_bytes-length n (taken ++ (b ∷ [])) bytes)

push_some_lem :
    (missing : Option ℕ) (taken bytes : List Byte) (p : Pushed Taken)
    → push_some missing taken bytes ≡ ok p
    → (length p.rest ≤ length bytes)
      × (missing ≡ none → p.status ≡ ready → length p.rest < length bytes)
unfolding push_some
push_some_lem none taken [] p run = (ground arith, λ new done. ground arith)
push_some_lem none taken (n ∷ bytes) p run = (
  ground (arith, take_bytes-length n taken bytes),
  λ new done. ground (arith, take_bytes-length n taken bytes),
)
push_some_lem (some n) taken bytes p run =
    (ground (arith, take_bytes-length n taken bytes), λ new done. ground arith)

pub measured-IsFramed : {A : Type 0} → (f : List Byte → A) → IsFramed (measured none f)
measured-IsFramed f = record {
  shrinks = λ s bytes p run. (push_some_lem s.missing s.bytes bytes p run).0;
  consumes = λ bytes p run done. (push_some_lem none [] bytes p run).1 refl done;
}

-- A length, as many bytes, and a byte more.
unfoldable pub push_and_one : Option ℕ → List Byte → List Byte → Outcome Short (Pushed Taken)
unfolding take_bytes
push_and_one none taken [] =
    ok (record {
      decoder = record { missing = none; bytes = taken };
      rest = [];
      status = needs_more;
    })
push_and_one none taken (n ∷ bytes) = ok (take_bytes (suc n) taken bytes)
push_and_one (some n) taken bytes = ok (take_bytes n taken bytes)

unfoldable pub split_last : List Byte → List Byte × ℕ
split_last [] = ([], 0)
split_last (b ∷ []) = ([], b)
split_last (b ∷ c ∷ bytes) = let (before, last) = split_last (c ∷ bytes) in (b ∷ before, last)

abbrev pub measured_and_one : Decoder (List Byte × ℕ)
measured_and_one = record {
  State = Taken;
  Error = Short;
  default = record { missing = none; bytes = [] };
  push_bytes = λ s bytes. push_and_one s.missing s.bytes bytes;
  end = λ s. end_some split_last s.missing s.bytes;
  read_limit = λ s. 1;
}

-- A key whose data is one byte.
unfoldable pub first_byte : List Byte → Outcome Short ℕ
first_byte [] = err short
first_byte (b ∷ []) = ok b
first_byte (b ∷ bytes) = err short

abbrev pub codecs : Codecs
codecs = record {
  compact_size = one (λ b. b);
  compact_size_u64 = one (λ b. b);
  amount = one (λ b. b);
  xonly_public_key = one (λ b. b);
  sp_v0_info = one (λ b. record { scan_key = b; spend_key = b });
  sp_v0_label = one (λ b. b);
  txid = one (λ b. b);
  vout = one (λ b. b);
  sequence = one (λ b. b);
  time = one (λ b. b);
  height = one (λ b. b);
  transaction = one (λ b. record { version = b; lock_time = blocks 0; input = []; output = [] });
  tx_out = one (λ b. record { value = b; script_pubkey = [] });
  sighash_type = one (λ b. record { inner = b });
  witness = one (λ b. (b ∷ []) ∷ []);
  tap_node_hash = one (λ b. b);
  compressed_public_key = one (λ b. b);
  dleq_proof = one (λ b. b);
  u32_bytes = one (λ b. b);
  tx_version = one (λ b. b);
  lock_time = one (λ b. blocks b);
  count = one (λ b. b);
  flags = one (λ b. record { bits = b });
  byte_vec = measured none (λ bytes. bytes);
  prefix_and_subtype = measured_and_one;
  script = measured none (λ bytes. bytes);
  key_source = measured none (λ bytes. (length bytes, bytes));
  tap_tree = measured none (λ bytes. length bytes);
  tap_key_origin = measured none (λ bytes. ([], (length bytes, bytes)));
  taproot_signature =
      measured none
        (λ bytes. record { signature = length bytes; sighash_type = TapSighashType.default });
  ecdsa_signature =
      measured none
        (λ bytes. record { signature = length bytes; sighash_type = EcdsaSighashType.all });
  leaf_script = measured none (λ bytes. (bytes, length bytes));
  KeyError = Short;
  HashError = Short;
  XpubError = Short;
  public_key_from_slice = first_byte;
  compressed_from_slice = first_byte;
  xonly_from_slice = first_byte;
  ripemd160_from_slice = first_byte;
  sha256_from_slice = first_byte;
  hash160_from_slice = first_byte;
  hash256_from_slice = first_byte;
  tap_leaf_hash_from_slice = first_byte;
  xpub_decode = first_byte;
  control_block_decode = λ bytes. some (length bytes);
}

abbrev pub encoders : Encoders
encoders = record {
  compact_size = λ n. n ∷ [];
  tap_tree = λ n. n ∷ [];
  amount = λ n. n ∷ [];
  public_key = λ n. n ∷ [];
  xonly_public_key = λ n. n ∷ [];
  sp_v0_label = λ n. n ∷ [];
  txid = λ n. n ∷ [];
  vout = λ n. n ∷ [];
  sequence = λ n. n ∷ [];
  time = λ n. n ∷ [];
  height = λ n. n ∷ [];
  ripemd160 = λ n. n ∷ [];
  sha256 = λ n. n ∷ [];
  hash160 = λ n. n ∷ [];
  hash256 = λ n. n ∷ [];
  control_block = λ n. n ∷ [];
  tap_node_hash = λ n. n ∷ [];
  compressed_public_key = λ n. n ∷ [];
  dleq_proof = λ n. n ∷ [];
  version = λ n. n ∷ [];
  tx_version = λ n. n ∷ [];
  count = λ n. n ∷ [];
  xpub = λ n. n ∷ [];
  script = λ bytes. bytes;
  key_source = λ s. s.1;
  tap_key_origin = λ s. s.1.1;
  taproot_signature = λ s. s.signature ∷ [];
  ecdsa_signature = λ s. s.signature ∷ [];
  leaf_script = λ s. s.0;
  sp_v0_info = λ i. i.scan_key ∷ [];
  transaction = λ tx. tx.version ∷ [];
  tx_out = λ o. o.value ∷ [];
  sighash_type = λ t. t.inner ∷ [];
  witness = λ w. [];
  xonly_leaf_hash = λ k. k.0 ∷ k.1 ∷ [];
  lock_time = λ t. 0 ∷ [];
  flags = λ f. f.bits ∷ [];
}
