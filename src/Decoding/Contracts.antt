-- ===== src/Decoding/Contracts.antt =====
-- What the map decoders rely on in the decoders of keys and values.
use rust_psbt.Prelude.{◌≡◌, ◌<◌, ◌≤◌, ◌++◌, List, ok, length}
use rust_psbt.Primitives.{Byte}
use rust_psbt.Decoding.{Decoder, Pushed, ready}

-- No call gives bytes back.
abbrev pub Shrinks : {A : Type 0} → Decoder A → Type 0
Shrinks d =
    (s : d.State) (bytes : List Byte) (p : Pushed d.State)
    → d.push_bytes s bytes ≡ ok p
    → length p.rest ≤ length bytes

-- A fresh decoder that is ready has taken a byte: its encoding starts with a length.
abbrev pub Consumes : {A : Type 0} → Decoder A → Type 0
Consumes d =
    (bytes : List Byte) (p : Pushed d.State)
    → d.push_bytes d.default bytes ≡ ok p
    → p.status ≡ ready
    → length p.rest < length bytes

-- A fresh decoder reads the encoding of a value, leaves what follows, and ends in the value.
abbrev pub Reads : {A : Type 0} → Decoder A → A → List Byte → Type 0
Reads d a code =
    (rest : List Byte)
    → (s : d.State) × (d.push_bytes d.default (code ++ rest)
        ≡ ok (record { decoder = s; rest = rest; status = ready }))
      × (d.end s ≡ ok a)
