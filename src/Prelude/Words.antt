-- ===== src/Prelude/Words.antt =====
-- Byte arrays, and the little-endian numbers that they stand for.
use Prim.Native.Nat.{ℕ, zero, suc, ◌+◌, ◌*◌, ◌/◌, ◌%◌, ◌^◌, ◌<◌}
use mathlib.Core.Path.{◌≡◌, refl, ap}
use mathlib.Core.List.{List, [], ◌∷◌, ◌++◌, reverse, reverse-cons}
use native.Mathlib.Omega.{arith}
use native.Mathlib.Nat.{pow-suc}
use casper_js_sdk.Prelude.Lists.{length, take, drop, replicate, All}

-- A `Uint8Array`: its elements, in order.
abbrev pub Bytes : Type 0
Bytes = List ℕ

abbrev pub IsByte : ℕ → Type 0
IsByte b = b < 256

abbrev pub AllByte : Bytes → Type 0
AllByte = All IsByte

pub AllByte-append : (xs ys : Bytes) → AllByte xs → AllByte ys → AllByte (xs ++ ys)
AllByte-append [] ys h k = k
AllByte-append (x ∷ xs) ys (p, h) k = (p, AllByte-append xs ys h k)

pub AllByte-append_right : (xs ys : Bytes) → AllByte (xs ++ ys) → AllByte ys
AllByte-append_right [] ys h = h
AllByte-append_right (x ∷ xs) ys (p, h) = AllByte-append_right xs ys h

pub AllByte-take : (n : ℕ) (xs : Bytes) → AllByte xs → AllByte (take n xs)
AllByte-take zero xs h = tt
AllByte-take (suc n) [] h = tt
AllByte-take (suc n) (x ∷ xs) (p, h) = (p, AllByte-take n xs h)

pub AllByte-drop : (n : ℕ) (xs : Bytes) → AllByte xs → AllByte (drop n xs)
AllByte-drop zero xs h = h
AllByte-drop (suc n) [] h = tt
AllByte-drop (suc n) (x ∷ xs) (p, h) = AllByte-drop n xs h

pub AllByte-zeros : (n : ℕ) → AllByte (replicate n 0)
AllByte-zeros zero = tt
AllByte-zeros (suc n) = (omega arith, AllByte-zeros n)

pub AllByte-reverse : (xs : Bytes) → AllByte xs → AllByte (reverse xs)
AllByte-reverse [] h = tt
AllByte-reverse (x ∷ xs) (p, h) =
    rw (reverse-cons x xs) (AllByte-append (reverse xs) (x ∷ []) (AllByte-reverse xs h) (p, tt))

-- The number whose base-256 digits these are, lowest first.
unfoldable pub le_value : Bytes → ℕ
le_value [] = 0
le_value (b ∷ bs) = b + 256 * le_value bs

-- The `k` lowest base-256 digits of `n`, lowest first.
unfoldable pub le_bytes : ℕ → ℕ → Bytes
le_bytes zero n = []
le_bytes (suc k) n = n % 256 ∷ le_bytes k (n / 256)

pub length-le_bytes : (k n : ℕ) → length (le_bytes k n) ≡ k
unfolding le_bytes
length-le_bytes zero n = refl
length-le_bytes (suc k) n = ap suc (length-le_bytes k (n / 256))

pub AllByte-le_bytes : (k n : ℕ) → AllByte (le_bytes k n)
unfolding le_bytes
AllByte-le_bytes zero n = tt
AllByte-le_bytes (suc k) n = (omega arith, AllByte-le_bytes k (n / 256))

pub le_value-le_bytes : (k n : ℕ) → n < 256 ^ k → le_value (le_bytes k n) ≡ n
unfolding le_value le_bytes
le_value-le_bytes zero n h = omega arith
le_value-le_bytes (suc k) n h = omega (arith, le_value-le_bytes k (n / 256) (omega arith))

pub le_value-lt : (bs : Bytes) → AllByte bs → le_value bs < 256 ^ length bs
unfolding le_value
le_value-lt [] h = omega arith
le_value-lt (b ∷ bs) (p, h) = omega (arith, pow-suc 256 (length bs), le_value-lt bs h)

pub le_bytes-le_value : (bs : Bytes) → AllByte bs → le_bytes (length bs) (le_value bs) ≡ bs
unfolding le_value le_bytes
le_bytes-le_value [] h = refl
le_bytes-le_value (b ∷ bs) (p, h) =
    let q : (b + 256 * le_value bs) / 256 ≡ le_value bs = omega arith in
    let r : (b + 256 * le_value bs) % 256 ≡ b = omega arith in rw (q, r, le_bytes-le_value bs h)

pub le_value-append_zeros : (bs : Bytes) (k : ℕ) → le_value (bs ++ replicate k 0) ≡ le_value bs
unfolding le_value
le_value-append_zeros [] zero = refl
le_value-append_zeros [] (suc k) = omega (arith, le_value-append_zeros [] k)
le_value-append_zeros (b ∷ bs) k = omega (arith, le_value-append_zeros bs k)

-- The bytes of a given length are known by their value.
pub le_bytes_unique :
    (bs : Bytes) (k n : ℕ) → AllByte bs → length bs ≡ k → le_value bs ≡ n → bs ≡ le_bytes k n
le_bytes_unique bs k n h l v = rw (← l, ← v, le_bytes-le_value bs h)
