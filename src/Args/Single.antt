-- ===== src/Args/Single.antt =====
-- One named argument, written and read back.
use casper_js_sdk.Prelude.{
  ◌^◌, ◌<◌, ◌≡◌, refl, [], ◌++◌, append_assoc, length, take-append, drop-append, length-append,
  true, ok,
}
use casper_js_sdk.Prelude.Words.{Bytes, le_bytes, length-le_bytes}
use casper_js_sdk.Ethers.{Ethers}
use casper_js_sdk.Ethers.Concat.{concat2}
use casper_js_sdk.Text.{Text, IsText, Decoder, utf8}
use casper_js_sdk.Text.RoundTrip.{to_bytes_string_lem}
use casper_js_sdk.ClType.Encoding.{encodable, erase}
use casper_js_sdk.Key.Entity.{read_u32}
use casper_js_sdk.Key.Entity.RoundTrip.{read_u32-le_bytes}
use casper_js_sdk.ClValue.{ClValue, type_of, value_bytes}
use casper_js_sdk.ClValue.Plain.{plain}
use casper_js_sdk.ClValue.Parser.{KeyTexts, from_bytes_with_type, to_bytes_with_type}
use casper_js_sdk.ClValue.Readable.{NeedsBytes, Readable}
use casper_js_sdk.ClValue.WithType.{from_bytes_with_type-to_bytes_with_type}
use casper_js_sdk.Args.{NamedArg, drop_mark, named_arg_to_bytes, named_arg_from_bytes, consumed}

module _ ⦃e : Ethers⦄ (d : Decoder) (texts : KeyTexts) where
  -- A name without a byte order mark in front, of less than 2 ^ 32 bytes, and a readable value, of a
  -- type without dynamic parts that takes a byte at least, of less than 2 ^ 32 bytes.
  pub record IsArg (a : NamedArg) : Type 0 where
    pub is_text : IsText a.name
    pub unmarked : drop_mark a.name ≡ a.name
    pub short_name : length (utf8 a.name) < 2 ^ 32
    pub readable : Readable d texts a.value
    pub needs_bytes : NeedsBytes d texts (type_of a.value)
    pub known : encodable (type_of a.value) ≡ true
    pub static : erase (type_of a.value) ≡ type_of a.value
    pub bytes : Bytes
    pub written : value_bytes a.value ≡ ok bytes
    pub short : length bytes < 2 ^ 32

  -- What one argument is written as, what is read of it, and how many bytes that takes.
  pub record ReadsArg (a : NamedArg) : Type 0 where
    pub bytes : Bytes
    pub written : named_arg_to_bytes a ≡ ok bytes
    pub read :
        (rest : Bytes)
        → (v : ClValue) × (named_arg_from_bytes d texts (bytes ++ rest)
            ≡ ok (record { name = a.name; value = v }))
          × (consumed (bytes ++ rest) (record { name = a.name; value = v }) ≡ ok (length bytes))
          × (plain v ≡ a.value)

  -- The bytes of an argument, given those of its value.
  arg_bytes : Text → Bytes → Bytes
  arg_bytes name value = le_bytes 4 (length (utf8 name)) ++ utf8 name ++ value

  split_arg :
      (name : Text) (value rest : Bytes)
      → length (utf8 name) < 2 ^ 32
      → read_u32 (arg_bytes name value ++ rest)
        ≡ ok (length (utf8 name), utf8 name ++ (value ++ rest))
  unfolding arg_bytes
  split_arg name value rest short = rw (
    append_assoc (le_bytes 4 (length (utf8 name)) ++ utf8 name) value rest,
    append_assoc (le_bytes 4 (length (utf8 name))) (utf8 name) (value ++ rest),
    read_u32-le_bytes (length (utf8 name)) (utf8 name ++ (value ++ rest)) short,
  )

  named_arg_from_bytes_lem :
      (name : Text) (value rest : Bytes) (v : ClValue)
      → IsText name
      → drop_mark name ≡ name
      → length (utf8 name) < 2 ^ 32
      → from_bytes_with_type d texts (value ++ rest) ≡ ok (v, rest)
      → named_arg_from_bytes d texts (arg_bytes name value ++ rest)
        ≡ ok (record { name = name; value = v })
  unfolding named_arg_from_bytes
  named_arg_from_bytes_lem name value rest v t unmarked short back = rw (
    split_arg name value rest short,
    drop-append (utf8 name) (value ++ rest) (length (utf8 name)) refl,
    back,
    take-append (utf8 name) (value ++ rest) (length (utf8 name)) refl,
    d.decode-utf8 name t,
    unmarked,
  )

  consumed_lem :
      (name : Text) (value rest : Bytes) (v : ClValue)
      → length (utf8 name) < 2 ^ 32
      → to_bytes_with_type v ≡ ok value
      → consumed (arg_bytes name value ++ rest) (record { name = name; value = v })
        ≡ ok (length (arg_bytes name value))
  unfolding consumed arg_bytes
  consumed_lem name value rest v short again = rw (
    consumed,
    split_arg name value rest short,
    again,
    length-append (le_bytes 4 (length (utf8 name)) ++ utf8 name) value,
    length-append (le_bytes 4 (length (utf8 name))) (utf8 name),
    length-le_bytes 4 (length (utf8 name)),
  )

  pub arg_reads : (a : NamedArg) → IsArg a → ReadsArg a
  unfolding named_arg_to_bytes arg_bytes
  arg_reads a h =
      let (value, _, written, _, _, _) =
        from_bytes_with_type-to_bytes_with_type d texts a.value h.bytes [] h.readable h.needs_bytes
          h.known h.static h.written h.short in
      record {
        bytes = arg_bytes a.name value;
        written = rw (to_bytes_string_lem a.name h.short_name, written, concat2);
        read = λ rest.
            let (value', v, written', back, same, again) =
              from_bytes_with_type-to_bytes_with_type d texts a.value h.bytes rest h.readable
                h.needs_bytes h.known h.static h.written h.short in
            let equal : value' ≡ value = cc (written, written') in
            (
              v,
              named_arg_from_bytes_lem a.name value rest v h.is_text h.unmarked h.short_name
                  (rw (← equal) back),
              consumed_lem a.name value rest v h.short_name (rw (← equal) again),
              same,
            );
      }
