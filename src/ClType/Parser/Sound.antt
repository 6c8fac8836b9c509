-- ===== src/ClType/Parser/Sound.antt =====
-- Whatever `matchBytesToCLType` accepts begins with the encoding of the type that it returns.
use casper_js_sdk.Prelude.{
  length-reverse, ℕ, zero, suc, ◌≤◌, ◌<◌, ◌≡◌, refl, sym, ap, ◌∙◌, arith, List, [], ◌∷◌, ◌++◌,
  append_assoc, length, length-append, length-take, take, drop, take-append-drop, true, false, ◌&&◌,
  Bool-cases, Option-cases, inl, inr, some, ok, ltb, ◌==◌, ==_iff, reverse,
}
use mathlib.Core.List.{reverse-reverse}
use native.Mathlib.Nat.{le_trans}
use casper_js_sdk.Prelude.Int.{pos}
use casper_js_sdk.Prelude.Words.{
  Bytes, AllByte, AllByte-append_right, AllByte-reverse, AllByte-take, le_bytes, le_value,
  le_value-lt, le_bytes-le_value,
}
use casper_js_sdk.Prelude.Ensures.{Ensures, holds, thrown, Ensures-bind, Ensures-ok}
use casper_js_sdk.Ethers.{Ethers}
use casper_js_sdk.ByteConverters.Numbers.{twos_complement}
use casper_js_sdk.Numeric.{Parsed, u32_from_bytes}
use casper_js_sdk.ClType.{byte_array, ClType, TypeId, type_code, option, list, tuple1, to_bytes}
use casper_js_sdk.ClType.Encoding.{encodable, encoding, erase, encodable_writes}
use casper_js_sdk.ClType.Parser.{
  type_ids, find_type_id, to_cl_type_tag, match_tag, match_first, match_fuel,
  match_bytes_to_cl_type,
}

find_type_id-code :
    (tag : ℕ) (ids : List TypeId) (id : TypeId)
    → find_type_id tag ids ≡ some id
    → type_code id ≡ tag
unfolding find_type_id
find_type_id-code tag [] id h = cc
find_type_id-code tag (x ∷ ids) id h = elim (Bool-cases (type_code x == tag)) [
  | inl same ↦
      let found : some x ≡ some id = rw same at h in
      let e : x ≡ id = cc in rw (← e) ((==_iff (type_code x) tag).0 same)
  | inr other ↦ find_type_id-code tag ids id (rw other at h)
]

-- `r` is a type and the bytes behind it, in `bytes`.
pub record Reading (bytes : Bytes) (r : ClType × Bytes) : Type 0 where
  pub split : bytes ≡ encoding r.0 ++ r.1
  pub fits : encodable r.0 ≡ true
  pub plain : erase r.0 ≡ r.0

pub rest_bytes :
    {bytes : Bytes} {r : ClType × Bytes} → AllByte bytes → Reading bytes r → AllByte r.1
rest_bytes {bytes} {r} h g = AllByte-append_right (encoding r.0) r.1 (rw (← g.split) h)

pub rest_shorter :
    {bytes : Bytes} {r : ClType × Bytes} → Reading bytes r → length r.1 ≤ length bytes
rest_shorter {bytes} {r} g = omega (arith, ap length g.split, length-append (encoding r.0) r.1)

-- Two readings, one behind the other.
two_read :
    {bytes : Bytes} {r s : ClType × Bytes}
    → Reading bytes r
    → Reading r.1 s
    → (bytes ≡ (encoding r.0 ++ encoding s.0) ++ s.1) × ((encodable r.0 && encodable s.0) ≡ true)
two_read {bytes} {r} {s} g k = (
  g.split
      ∙ ap (λ t. encoding r.0 ++ t) k.split
      ∙ sym (append_assoc (encoding r.0) (encoding s.0) s.1),
  rw (g.fits, k.fits),
)

three_read :
    {bytes : Bytes} {r s t : ClType × Bytes}
    → Reading bytes r
    → Reading r.1 s
    → Reading s.1 t
    → (bytes ≡ (encoding r.0 ++ (encoding s.0 ++ encoding t.0)) ++ t.1)
      × ((encodable r.0 && (encodable s.0 && encodable t.0)) ≡ true)
three_read {bytes} {r} {s} {t} g k l =
    let (split, fits) = two_read k l in
    (
      g.split
          ∙ ap (λ u. encoding r.0 ++ u) split
          ∙ sym (append_assoc (encoding r.0) (encoding s.0 ++ encoding t.0) t.1),
      rw (g.fits, fits),
    )

module _ ⦃e : Ethers⦄ where
  u32-Ensures :
      (bs : Bytes)
      → AllByte bs
      → Ensures
          (λ r.
            (encodable (byte_array r.0) ≡ true) × (bs ≡ le_bytes 4 (twos_complement 32 r.0) ++ r.1))
          (u32_from_bytes bs)
  unfolding u32_from_bytes
  u32-Ensures bs h = elim (Bool-cases (ltb (length bs) 4)) [
    | inl short ↦ rw short (thrown (λ p. cc))
    | inr long ↦
        rw
          (
            long,
            e.from_bytes_lem (reverse (take 4 bs)) (AllByte-reverse _ (AllByte-take 4 bs h))
                (ground (arith, length-take 4 bs, length-reverse (take 4 bs))),
            reverse-reverse (take 4 bs),
          )
          (holds (word long))
  ]
    where
      word :
          ltb (length bs) 4 ≡ false
          → (encodable (byte_array (pos (le_value (take 4 bs)))) ≡ true)
            × (bs ≡ le_bytes 4 (twos_complement 32 (pos (le_value (take 4 bs)))) ++ drop 4 bs)
      word long =
          let four : length (take 4 bs) ≡ 4 = ground (arith, length-take 4 bs) in
          let digits = le_bytes-le_value (take 4 bs) (AllByte-take 4 bs h) in
          (
            unfold encodable in
                ground (arith, rw four at (le_value-lt (take 4 bs) (AllByte-take 4 bs h))),
            unfold twos_complement in rw (rw four at digits) (sym (take-append-drop 4 bs)),
          )

  match_tag-Ensures :
      (rec : Bytes → Parsed ClType) (id : TypeId) (bs : Bytes)
      → ((bs' : Bytes) → length bs' ≤ length bs → AllByte bs' → Ensures (Reading bs') (rec bs'))
      → AllByte bs
      → Ensures (Reading (type_code id ∷ bs)) (match_tag rec id bs)
  unfolding match_tag encoding erase encodable
  match_tag-Ensures rec TypeId.option bs k h = Ensures-bind (k bs (omega arith) h) λ r g.
      holds (record { split = ap (λ t. 13 ∷ t) g.split; fits = g.fits; plain = ap option g.plain })
  match_tag-Ensures rec TypeId.list bs k h = Ensures-bind (k bs (omega arith) h) λ r g.
      holds (record { split = ap (λ t. 14 ∷ t) g.split; fits = g.fits; plain = ap list g.plain })
  match_tag-Ensures rec TypeId.tuple1 bs k h = Ensures-bind (k bs (omega arith) h) λ r g.
      holds (record { split = ap (λ t. 18 ∷ t) g.split; fits = g.fits; plain = ap tuple1 g.plain })
  match_tag-Ensures rec TypeId.byte_array bs k h =
      Ensures-bind (u32-Ensures bs h)
        λ r g. holds (record { split = ap (λ t. 15 ∷ t) g.1; fits = g.0; plain = refl })
  match_tag-Ensures rec TypeId.result bs k h = Ensures-bind (k bs (omega arith) h) λ r g.
      Ensures-bind (k r.1 (rest_shorter g) (rest_bytes h g)) λ s i.
        let (split, fits) = two_read g i in
        holds
          (record { split = ap (λ t. 16 ∷ t) split; fits = fits; plain = rw (g.plain, i.plain) })
  match_tag-Ensures rec TypeId.map bs k h = Ensures-bind (k bs (omega arith) h) λ r g.
      Ensures-bind (k r.1 (rest_shorter g) (rest_bytes h g)) λ s i.
        let (split, fits) = two_read g i in
        holds
          (record { split = ap (λ t. 17 ∷ t) split; fits = fits; plain = rw (g.plain, i.plain) })
  match_tag-Ensures rec TypeId.tuple2 bs k h = Ensures-bind (k bs (omega arith) h) λ r g.
      Ensures-bind (k r.1 (rest_shorter g) (rest_bytes h g)) λ s i.
        let (split, fits) = two_read g i in
        holds
          (record { split = ap (λ t. 19 ∷ t) split; fits = fits; plain = rw (g.plain, i.plain) })
  match_tag-Ensures rec TypeId.tuple3 bs k h = Ensures-bind (k bs (omega arith) h) λ r g.
      Ensures-bind (k r.1 (rest_shorter g) (rest_bytes h g)) λ s i.
        let at_third = le_trans (rest_shorter i) (rest_shorter g) in
        Ensures-bind (k s.1 at_third (rest_bytes (rest_bytes h g) i)) λ t j.
          let (split, fits) = three_read g i j in
          holds (record {
            split = ap (λ t. 20 ∷ t) split;
            fits = fits;
            plain = rw (g.plain, i.plain, j.plain);
          })
  match_tag-Ensures rec TypeId.bool bs k h =
      holds (record { split = refl; fits = refl; plain = refl })
  match_tag-Ensures rec _ bs k h = holds (record { split = refl; fits = refl; plain = refl })

  pub match_fuel-Ensures :
      (f : ℕ) (bs : Bytes) → length bs < f → AllByte bs → Ensures (Reading bs) (match_fuel f bs)
  unfolding match_fuel match_first
  match_fuel-Ensures zero bs l h = absurd (omega arith)
  match_fuel-Ensures (suc f) [] l h = thrown (λ p. cc)
  match_fuel-Ensures (suc f) (tag ∷ bs) l (b, h) = elim (Option-cases (to_cl_type_tag tag)) [
    | inl missing ↦ rw (missing, match_first) (thrown (λ p. cc))
    | inr (id, found) ↦
        let code : type_code id ≡ tag =
          unfold to_cl_type_tag in find_type_id-code tag type_ids id found in
        rw (found, match_first)
          (rw code at (
            match_tag-Ensures (match_fuel f) id bs
              (λ bs' l' h'. match_fuel-Ensures f bs' (omega arith) h') h))
  ]

  -- What matchBytesToCLType accepts, of bytes, is exactly what toBytes writes for the type that it
  -- returns, followed by the bytes that it returns; and the type has no CLTypeDynamic wrapper.
  pub match_bytes_to_cl_type_sound :
      (bytes rest : Bytes) (t : ClType)
      → AllByte bytes
      → match_bytes_to_cl_type bytes ≡ ok (t, rest)
      → (written : Bytes) × (to_bytes t ≡ ok written) × (bytes ≡ written ++ rest) × (erase t ≡ t)
  unfolding match_bytes_to_cl_type
  match_bytes_to_cl_type_sound bytes rest t h e' =
      let g = Ensures-ok (match_fuel-Ensures _ bytes (omega arith) h) e' in
      (encoding t, encodable_writes t g.fits, g.split, g.plain)
