-- ===== src/Text/Utf8.antt =====
-- A decoder of UTF-8 that runs, and the sizes of texts.
use casper_js_sdk.Prelude.{
  ℕ, zero, suc, ◌+◌, ◌-◌, ◌*◌, ◌/◌, ◌%◌, ◌≤◌, ◌<◌, ◌≡◌, refl, ap, ◌∙◌, arith, [], ◌∷◌, ◌++◌, length,
  length-append, drop, ltb, Bool-cases, inl, inr, true, false, if◌then◌else◌, All,
}
use casper_js_sdk.Prelude.Words.{Bytes}
use casper_js_sdk.Text.{Text, utf8_char, utf8, utf16_length, IsScalar, IsText, Decoder}

-- ASCII texts
abbrev pub IsAscii : Text → Type 0
IsAscii = All (λ c. c < 0x80)

pub utf16_length-ascii : (s : Text) → IsAscii s → length (utf8 s) ≡ utf16_length s
unfolding utf8 utf8_char utf16_length
utf16_length-ascii [] h = refl
utf16_length-ascii (c ∷ s) (hc, h) = ground (arith, utf16_length-ascii s h)

length-utf8_char :
    (c : ℕ)
    → (1 ≤ length (utf8_char c))
      × (length (utf8_char c) ≤ 3 * (if ltb c 0x10000 then 1 else 2))
      × ((if ltb c 0x10000 then 1 else 2) ≤ length (utf8_char c))
unfolding utf8_char
length-utf8_char c = ground arith

-- A code unit of a string takes one to three bytes of UTF-8.
pub length-utf8 :
    (s : Text) → (utf16_length s ≤ length (utf8 s)) × (length (utf8 s) ≤ 3 * utf16_length s)
unfolding utf8 utf16_length
length-utf8 [] = omega arith
length-utf8 (c ∷ s) =
    let (a, b) = length-utf8 s in
    let (p, q, r) = length-utf8_char c in
    let sum = length-append (utf8_char c) (utf8 s) in omega arith

longer_char : (c : ℕ) → 0x80 ≤ c → (if ltb c 0x10000 then 1 else 2) < length (utf8_char c)
unfolding utf8_char
longer_char c h = ground arith

-- Any text with a code point that is not ASCII has more bytes than code units.
pub length-utf8_lt :
    (before : Text) (c : ℕ) (behind : Text)
    → 0x80 ≤ c
    → utf16_length (before ++ c ∷ behind) < length (utf8 (before ++ c ∷ behind))
unfolding utf8 utf16_length
length-utf8_lt [] c behind h =
    omega
      (arith, length-append (utf8_char c) (utf8 behind), longer_char c h, (length-utf8 behind).0)
length-utf8_lt (x ∷ before) c behind h =
    let sum = length-append (utf8_char x) (utf8 (before ++ c ∷ behind)) in
    let (p, q, r) = length-utf8_char x in omega (arith, length-utf8_lt before c behind h)

byte_at : ℕ → Bytes → ℕ
byte_at i [] = 0
byte_at zero (b ∷ bs) = b
byte_at (suc i) (b ∷ bs) = byte_at i bs

-- The code point that begins with the byte `a`, before the bytes `r`, and what follows it.
decode_char : ℕ → Bytes → ℕ × Bytes
decode_char a r =
    if ltb a 128
    then (a, r)
    else if ltb a 224
    then ((a - 192) * 64 + (byte_at 0 r - 128), drop 1 r)
    else if ltb a 240
    then ((a - 224) * 4096 + (byte_at 0 r - 128) * 64 + (byte_at 1 r - 128), drop 2 r)
    else (
      (a - 240) * 262144
          + (byte_at 0 r - 128) * 4096
          + (byte_at 1 r - 128) * 64
          + (byte_at 2 r - 128),
      drop 3 r,
    )

unfoldable pub decode_fuel : ℕ → Bytes → Text
unfolding decode_char byte_at
decode_fuel zero bs = []
decode_fuel (suc f) [] = []
decode_fuel (suc f) (a ∷ r) = let (c, rest) = decode_char a r in c ∷ decode_fuel f rest

decode_fuel-char :
    (f c : ℕ) (rest : Bytes)
    → IsScalar c
    → decode_fuel (suc f) (utf8_char c ++ rest) ≡ c ∷ decode_fuel f rest
unfolding decode_fuel utf8_char
decode_fuel-char f c rest h = elim (Bool-cases (ltb c 0x80)) [
  | inl one ↦ rw (one, one)
  | inr n1 ↦ elim (Bool-cases (ltb c 0x800)) [
    | inl two ↦
        let a : ltb (192 + c / 64) 128 ≡ false = ground arith in
        let b : ltb (192 + c / 64) 224 ≡ true = ground arith in
        let v : (192 + c / 64 - 192) * 64 + (128 + c % 64 - 128) ≡ c = omega arith in
        rw (n1, two, a, b, v)
    | inr n2 ↦ elim (Bool-cases (ltb c 0x10000)) [
      | inl three ↦
          let a : ltb (224 + c / 4096) 128 ≡ false = ground arith in
          let b : ltb (224 + c / 4096) 224 ≡ false = ground arith in
          let d : ltb (224 + c / 4096) 240 ≡ true = ground arith in
          let v : (224 + c / 4096 - 224) * 4096
                + (128 + c / 64 % 64 - 128) * 64
                + (128 + c % 64 - 128)
              ≡ c =
            omega arith in
          rw (n1, n2, three, a, b, d, v)
      | inr n3 ↦
          let a : ltb (240 + c / 262144) 128 ≡ false = ground arith in
          let b : ltb (240 + c / 262144) 224 ≡ false = ground arith in
          let d : ltb (240 + c / 262144) 240 ≡ false = ground arith in
          let v : (240 + c / 262144 - 240) * 262144
                + (128 + c / 4096 % 64 - 128) * 4096
                + (128 + c / 64 % 64 - 128) * 64
                + (128 + c % 64 - 128)
              ≡ c =
            omega arith in
          rw (n1, n2, n3, a, b, d, v)
    ]
  ]
]

pub decode_fuel-utf8 :
    (f : ℕ) (s : Text) → IsText s → length (utf8 s) ≤ f → decode_fuel f (utf8 s) ≡ s
unfolding utf8
decode_fuel-utf8 zero [] h l = unfold decode_fuel in refl
decode_fuel-utf8 (suc f) [] h l = unfold decode_fuel in refl
decode_fuel-utf8 zero (c ∷ s) h l =
    let (p, q, r) = length-utf8_char c in
    absurd (omega (arith, length-append (utf8_char c) (utf8 s)))
decode_fuel-utf8 (suc f) (c ∷ s) (hc, h) l =
    let (p, q, r) = length-utf8_char c in
    decode_fuel-char f c (utf8 s) hc
    ∙ ap (λ t. c ∷ t) (decode_fuel-utf8 f s h (omega (arith, length-append (utf8_char c) (utf8 s))))

abbrev pub utf8_decoder : Decoder
utf8_decoder = record {
  decode = λ bs. decode_fuel (length bs) bs;
  decode-utf8 = λ s h. decode_fuel-utf8 (length (utf8 s)) s h (omega arith);
}
