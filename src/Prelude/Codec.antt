-- ===== src/Prelude/Codec.antt =====
-- A writer and a reader of the same bytes.
use mathlib.Core.Path.{◌≡◌}
use mathlib.Core.List.{◌++◌}
use casper_js_sdk.Prelude.Errors.{Result, ok}
use casper_js_sdk.Prelude.Words.{Bytes}

-- The writer accepts `a`, and from what it writes and the bytes that follow, the reader takes `a`
-- and leaves what follows.
abbrev pub RoundTrip {ℓ} :
    {A : Type ℓ} → (A → Result Bytes) → (Bytes → Result (A × Bytes)) → A → Bytes → Type ℓ
RoundTrip write read a rest =
    (bytes : Bytes) × (write a ≡ ok bytes) × (read (bytes ++ rest) ≡ ok (a, rest))
