-- ===== src/ClValue/Lists.antt =====
-- Lists of values, written and read back.
use casper_js_sdk.Prelude.{
  ℕ, suc, ◌^◌, ◌<◌, ◌≡◌, refl, ap, sym, ◌∙◌, arith, List, [], ◌∷◌, ◌++◌, append_assoc, false, ok,
  ◌>>=◌,
}
use casper_js_sdk.Prelude.Words.{Bytes, le_bytes}
use casper_js_sdk.Ethers.{Ethers}
use casper_js_sdk.ByteConverters.Numbers.{to_bytes_u32-le_bytes}
use casper_js_sdk.Numeric.{Parsed}
use casper_js_sdk.Numeric.Fixed.{u32_from_bytes-le_bytes}
use casper_js_sdk.Text.{Decoder}
use casper_js_sdk.ClType.{ClType, list}
use casper_js_sdk.ClValue.Plain.{plain, plain_all}
use casper_js_sdk.ClValue.Parser.{KeyTexts, from_bytes_by_type, read_elements}
use casper_js_sdk.ClValue.Readable.{NeedsBytes}
use casper_js_sdk.ClValue.{
  ClValue, ClValues, nil, cons, cl_list, is_any, size, list_bytes, value_bytes, values_bytes,
}
use casper_js_sdk.ClValue.Parts.{Reads, nonempty}

size-plain : (vs : ClValues) → size (plain_all vs) ≡ size vs
unfolding size plain
size-plain nil = refl
size-plain (cons v vs) = ap suc (size-plain vs)

module _ ⦃e : Ethers⦄ (d : Decoder) (texts : KeyTexts) where
  pub record ReadsAll (t : ClType) (vs : ClValues) : Type 0 where
    pub parts : List Bytes
    pub written : values_bytes vs ≡ ok parts
    pub read :
        (rest : Bytes)
        → (vs' : ClValues) × (read_elements
              (from_bytes_by_type d texts t)
              (size vs)
              (e.concat parts ++ rest)
            ≡ ok (vs', rest))
          × (plain_all vs' ≡ vs)
          × (values_bytes vs' ≡ ok parts)

  pub nil_ReadsAll : (t : ClType) → ReadsAll t nil
  unfolding values_bytes size read_elements plain
  nil_ReadsAll t = record {
    parts = [];
    written = refl;
    read = λ rest. (nil, rw (e.concat-nil), refl, refl);
  }

  -- A loop over no elements gives back what it is given; over one more, it reads one from bytes that
  -- are not empty.
  read_elements_cons :
      (read : Bytes → Parsed ClValue) (n : ℕ) (bytes tail : Bytes) (v : ClValue)
      → (b : ℕ) × (bs : Bytes) × (bytes ≡ b ∷ bs)
      → read (bytes ++ tail) ≡ ok (v, tail)
      → read_elements read (suc n) (bytes ++ tail)
        ≡ (do (vs, rest) ← read_elements read n tail; ok (cons v vs, rest))
  unfolding read_elements
  read_elements_cons read n bytes tail v (b, bs, cut) back =
      rw (cut) (let back' : read (b ∷ bs ++ tail) ≡ ok (v, tail) = rw (cut) at back in rw (back'))

  pub cons_ReadsAll :
      (t : ClType) (v : ClValue) (vs : ClValues)
      → NeedsBytes d texts t
      → Reads d texts t v
      → ReadsAll t vs
      → ReadsAll t (cons v vs)
  unfolding values_bytes size plain
  cons_ReadsAll t v vs needs r q = record {
    parts = r.bytes ∷ q.parts;
    written = rw (r.written, q.written);
    read = λ rest.
        let tail = e.concat q.parts ++ rest in
        let (v', back, same, again) = r.read tail in
        let (vs', back', same', again') = q.read rest in
        (
          cons v' vs',
          rw (
            e.concat-cons r.bytes q.parts,
            append_assoc r.bytes (e.concat q.parts) rest,
            read_elements_cons (from_bytes_by_type d texts t) (size vs) r.bytes tail v'
                (nonempty d texts t v r.bytes needs r.read) back,
            back',
          ),
          rw (same, same'),
          rw (again, again'),
        );
  }

  pub list_Reads :
      (t : ClType) (vs : ClValues)
      → is_any t ≡ false
      → size vs < 2 ^ 32
      → ReadsAll t vs
      → Reads d texts (list t) (cl_list t vs)
  unfolding value_bytes from_bytes_by_type list_bytes plain
  list_Reads t vs known small q = record {
    bytes = le_bytes 4 (size vs) ++ e.concat q.parts;
    written =
        rw (q.written, list_bytes, known, to_bytes_u32-le_bytes (size vs) small, e.concat-cons);
    read = λ rest.
        let (vs', back, same, again) = q.read rest in
        (
          cl_list t vs',
          rw (
            append_assoc (le_bytes 4 (size vs)) (e.concat q.parts) rest,
            u32_from_bytes-le_bytes (size vs) (e.concat q.parts ++ rest) (omega arith),
            known,
            back,
          ),
          ap (cl_list t) same,
          let count : size vs' ≡ size vs = sym (size-plain vs') ∙ ap (λ ws. size ws) same in
              rw (
                again,
                list_bytes,
                known,
                count,
                to_bytes_u32-le_bytes (size vs) small,
                e.concat-cons,
              ),
        );
  }
