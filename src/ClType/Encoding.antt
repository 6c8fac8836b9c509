-- ===== src/ClType/Encoding.antt =====
-- What `toBytes` of a type writes: the encoding as a plain list, with no error and no interface.
use casper_js_sdk.Prelude.{
  ℕ, ◌≡◌, refl, sym, ◌∙◌, arith, [], ◌∷◌, ◌++◌, append-nil, Bool, true, false, ◌&&◌, Result, ok,
  err, Error, value_out_of_bounds, number_overflow, ltb, ◌^◌, ◌-◌, ◌≤◌, ◌>>=◌, Bool-cases, inl, inr,
}
use casper_js_sdk.Prelude.Int.{ℤ, pos, negsuc}
use casper_js_sdk.Prelude.Words.{Bytes, le_bytes}
use casper_js_sdk.Ethers.{Ethers}
use casper_js_sdk.ByteConverters.{number_to_bytes, number_to_bytes_u32}
use casper_js_sdk.ByteConverters.Numbers.{
  fits, twos_complement, to_bytes_number-le_bytes, number_to_bytes_u32-le_bytes,
}
use casper_js_sdk.ClType.{
  ClType, type_code, simple_id, simple, option, list, byte_array, result, map, tuple1, tuple2,
  tuple3, dynamic, to_bytes, get_type_id, get_name, type_name,
}

-- Every size of a byte array in the type is from 0 to below 2 ^ 32.
unfoldable pub encodable : ClType → Bool
encodable (simple s) = true
encodable (option t) = encodable t
encodable (list t) = encodable t
encodable (byte_array (pos n)) = ltb n (2 ^ 32)
encodable (byte_array (negsuc n)) = false
encodable (result t u) = encodable t && encodable u
encodable (map t u) = encodable t && encodable u
encodable (tuple1 t) = encodable t
encodable (tuple2 t u) = encodable t && encodable u
encodable (tuple3 t u v) = encodable t && (encodable u && encodable v)
encodable (dynamic id t) = encodable t

unfoldable pub encoding : ClType → Bytes
encoding (simple s) = type_code (simple_id s) ∷ []
encoding (option t) = 13 ∷ encoding t
encoding (list t) = 14 ∷ encoding t
encoding (byte_array n) = 15 ∷ le_bytes 4 (twos_complement 32 n)
encoding (result t u) = 16 ∷ (encoding t ++ encoding u)
encoding (map t u) = 17 ∷ (encoding t ++ encoding u)
encoding (tuple1 t) = 18 ∷ encoding t
encoding (tuple2 t u) = 19 ∷ (encoding t ++ encoding u)
encoding (tuple3 t u v) = 20 ∷ (encoding t ++ (encoding u ++ encoding v))
encoding (dynamic id t) = encoding t

-- The type without its `CLTypeDynamic` wrappers.
unfoldable pub erase : ClType → ClType
erase (simple s) = simple s
erase (option t) = option (erase t)
erase (list t) = list (erase t)
erase (byte_array n) = byte_array n
erase (result t u) = result (erase t) (erase u)
erase (map t u) = map (erase t) (erase u)
erase (tuple1 t) = tuple1 (erase t)
erase (tuple2 t u) = tuple2 (erase t) (erase u)
erase (tuple3 t u v) = tuple3 (erase t) (erase u) (erase v)
erase (dynamic id t) = erase t

-- The bytes are returned, if they fit, and an error is thrown otherwise.
abbrev pub WritesOrThrows : Result Bytes → Bool → Bytes → Type 0
WritesOrThrows m true bytes = m ≡ ok bytes
WritesOrThrows m false bytes = (x : Error) × (m ≡ err x)

module _ ⦃e : Ethers⦄ where
  too_large : (n : ℕ) → 2 ^ 32 ≤ n → (x : Error) × (number_to_bytes_u32 (pos n) ≡ err x)
  unfolding number_to_bytes
  too_large n h = elim (Bool-cases (ltb n (2 ^ 53 - 1))) [
    | inl exact ↦
        let unfit : fits 32 false (pos n) ≡ false = unfold fits in ground arith in
        (
          value_out_of_bounds,
          rw (e.from_number-safe n (ground arith))
              (to_bytes_number-le_bytes 3 false (pos n) (omega arith) ∙ rw (unfit) refl),
        )
    | inr huge ↦ (number_overflow, rw (e.from_number-unsafe n (ground arith)))
  ]

  negative : (n : ℕ) → (x : Error) × (number_to_bytes_u32 (negsuc n) ≡ err x)
  unfolding number_to_bytes fits
  negative n = elim (e.from_number-negsuc n) [
    | inl exact ↦ (
      value_out_of_bounds,
      rw (exact) (to_bytes_number-le_bytes 3 false (negsuc n) (omega arith)),
    )
    | inr huge ↦ (number_overflow, rw (huge))
  ]

  size_written :
      (n : ℤ)
      → WritesOrThrows
          (number_to_bytes_u32 n)
          (encodable (byte_array n))
          (le_bytes 4 (twos_complement 32 n))
  unfolding encodable twos_complement
  size_written (pos n) = elim (Bool-cases (ltb n (2 ^ 32))) [
    | inl small ↦ rw (small) (number_to_bytes_u32-le_bytes n (ground arith))
    | inr large ↦ rw (large) (too_large n (ground arith))
  ]
  size_written (negsuc n) = negative n

  one_part :
      (tag : ℕ) (m : Result Bytes) (f : Bool) (bs : Bytes)
      → WritesOrThrows m f bs
      → WritesOrThrows (m >>= λ b. ok (e.concat ((tag ∷ []) ∷ b ∷ []))) f (tag ∷ bs)
  one_part tag m true bs h = rw h (simp (e.concat-cons, e.concat-nil, append-nil))
  one_part tag m false bs (x, h) = (x, rw h)

  two_parts :
      (tag : ℕ) (m n : Result Bytes) (f g : Bool) (bs cs : Bytes)
      → WritesOrThrows m f bs
      → WritesOrThrows n g cs
      → WritesOrThrows
          (m >>= λ b. n >>= λ c. ok (e.concat ((tag ∷ []) ∷ b ∷ c ∷ [])))
          (f && g)
          (tag ∷ (bs ++ cs))
  two_parts tag m n true true bs cs h k = rw (h, k) (simp (e.concat-cons, e.concat-nil, append-nil))
  two_parts tag m n true false bs cs h (x, k) = (x, rw (h, k))
  two_parts tag m n false g bs cs (x, h) k = (x, rw h)

  three_parts :
      (tag : ℕ) (m n o : Result Bytes) (f g i : Bool) (bs cs ds : Bytes)
      → WritesOrThrows m f bs
      → WritesOrThrows n g cs
      → WritesOrThrows o i ds
      → WritesOrThrows
          (m >>= λ b. n >>= λ c. o >>= λ d. ok (e.concat ((tag ∷ []) ∷ b ∷ c ∷ d ∷ [])))
          (f && (g && i))
          (tag ∷ (bs ++ (cs ++ ds)))
  three_parts tag m n o true true true bs cs ds h k l =
      rw (h, k, l) (simp (e.concat-cons, e.concat-nil, append-nil))
  three_parts tag m n o true true false bs cs ds h k (x, l) = (x, rw (h, k, l))
  three_parts tag m n o true false i bs cs ds h (x, k) l = (x, rw (h, k))
  three_parts tag m n o false g i bs cs ds (x, h) k l = (x, rw h)

  -- toBytes of a type writes its encoding if every byte array size in it is from 0 to below 2 ^
  -- 32, and throws an error otherwise.
  pub to_bytes-encoding : (t : ClType) → WritesOrThrows (to_bytes t) (encodable t) (encoding t)
  unfolding to_bytes encodable encoding
  to_bytes-encoding (simple s) = refl
  to_bytes-encoding (option t) = one_part 13 _ _ _ (to_bytes-encoding t)
  to_bytes-encoding (list t) = one_part 14 _ _ _ (to_bytes-encoding t)
  to_bytes-encoding (byte_array n) = one_part 15 _ _ _ (size_written n)
  to_bytes-encoding (result t u) =
      two_parts 16 _ _ _ _ _ _ (to_bytes-encoding t) (to_bytes-encoding u)
  to_bytes-encoding (map t u) = two_parts 17 _ _ _ _ _ _ (to_bytes-encoding t) (to_bytes-encoding u)
  to_bytes-encoding (tuple1 t) = one_part 18 _ _ _ (to_bytes-encoding t)
  to_bytes-encoding (tuple2 t u) =
      two_parts 19 _ _ _ _ _ _ (to_bytes-encoding t) (to_bytes-encoding u)
  to_bytes-encoding (tuple3 t u v) =
      three_parts 20 _ _ _ _ _ _ _ _ _ (to_bytes-encoding t) (to_bytes-encoding u)
        (to_bytes-encoding v)
  to_bytes-encoding (dynamic id t) = to_bytes-encoding t

pub encodable_writes : ⦃e : Ethers⦄ (t : ClType) → encodable t ≡ true → to_bytes t ≡ ok (encoding t)
encodable_writes t h = rw (h) at (to_bytes-encoding t)

-- A type whose bytes are returned is one that can be written.
pub returned_encodable :
    ⦃e : Ethers⦄ (t : ClType) (bytes : Bytes) → to_bytes t ≡ ok bytes → encodable t ≡ true
returned_encodable t bytes h = elim (Bool-cases (encodable t)) [
  | inl fits ↦ fits
  | inr bad ↦ let (x, thrown) = rw (bad) at (to_bytes-encoding t) in absurd (cc)
]

pub returned_encoding :
    ⦃e : Ethers⦄ (t : ClType) (bytes : Bytes) → to_bytes t ≡ ok bytes → encoding t ≡ bytes
returned_encoding t bytes h = let same = encodable_writes t (returned_encodable t bytes h) in cc

encoding-type_code :
    (t : ClType) → (body : Bytes) × (encoding t ≡ type_code (get_type_id (erase t)) ∷ body)
unfolding encoding get_type_id erase
encoding-type_code (simple s) = (_, refl)
encoding-type_code (dynamic id t) = encoding-type_code t
encoding-type_code (option t) = (_, refl)
encoding-type_code _ = (_, refl)

get_name-type_name : (t : ClType) → get_name t ≡ type_name (get_type_id (erase t))
unfolding get_name get_type_id erase
get_name-type_name (simple s) = refl
get_name-type_name (dynamic id t) = get_name-type_name t
get_name-type_name _ = refl

-- What toBytes of a type writes begins with the number of the id that getTypeID of the type
-- without its CLTypeDynamic wrappers returns, and getName returns the name of that id.
pub to_bytes-get_type_id :
    ⦃e : Ethers⦄ (t : ClType) (bytes : Bytes)
    → to_bytes t ≡ ok bytes
    → (body : Bytes) × (bytes ≡ type_code (get_type_id (erase t)) ∷ body)
      × (get_name t ≡ type_name (get_type_id (erase t)))
to_bytes-get_type_id t bytes h =
    let (body, head) = encoding-type_code t in
    (body, sym (returned_encoding t bytes h) ∙ head, get_name-type_name t)
