-- ===== src/ClValue/Texts.antt =====
-- `toString` of the values, under src/types/clvalue: the texts that the reader of a map compares.
use casper_js_sdk.Prelude.{
  suc, ◌≡◌, refl, true, false, List, [], ◌∷◌, ◌++◌, none, some, Result, ok, err, ◌>>=◌, type_error,
  missing_key,
}
use casper_js_sdk.Prelude.Int.{ℤ, pos, negsuc}
use casper_js_sdk.Prelude.Words.{Bytes}
use casper_js_sdk.Text.{Text, codes}
use casper_js_sdk.Hex.{to_hex}
use casper_js_sdk.Conversions.{decimal}
use casper_js_sdk.Key.{Key}
use casper_js_sdk.Key.Reference.{URef}
use casper_js_sdk.ClValue.Keypair.{PublicKey, algorithm_code}
use casper_js_sdk.ClValue.{
  ClValue, ClValues, Entries, nil, cons, end, entry, cl_bool, cl_i32, cl_i64, cl_u8, cl_u32, cl_u64,
  cl_u128, cl_u256, cl_u512, cl_unit, cl_string, cl_key, cl_uref, cl_any, cl_public_key,
  cl_byte_array, cl_none, cl_some, cl_list, cl_result, cl_map, cl_tuple1, cl_tuple2, cl_tuple3,
  cl_untyped,
}
use casper_js_sdk.ClValue.Plain.{plain, plain_all, plain_entries}
use casper_js_sdk.ClValue.Parser.{KeyTexts}
use casper_js_sdk.Args.{text_eq}

-- `BigNumber.toString`
unfoldable pub number_text : ℤ → Text
number_text (pos n) = decimal n
number_text (negsuc n) = 45 ∷ decimal (suc n)

-- `URef.toString`; the access is one octal digit.
unfoldable pub uref_text : URef → Text
uref_text u = to_hex u.data_ ++ (codes "-00" ++ decimal u.access)

-- `PublicKey.toHex`, not checksummed
unfoldable pub public_key_text : PublicKey → Result Text
public_key_text k = elim k.key [
  | none ↦ err missing_key
  | some key ↦ ok (48 ∷ (decimal (algorithm_code k.crypto_alg) ++ to_hex key))
]

abbrev pub quoted : Text → Text
quoted s = 34 ∷ (s ++ 34 ∷ [])

-- `join(',')`
unfoldable pub join_commas : List Text → Text
join_commas [] = []
join_commas (s ∷ []) = s
join_commas (s ∷ t ∷ more) = s ++ 44 ∷ join_commas (t ∷ more)

-- `Key.toPrefixedString`, and what the runtime's `TextDecoder` makes of bytes.
module _ (key_text : Key → Result Text) (any_text : Bytes → Text) where
  -- A field that the type names and that is unset has no text. The index of a map holds its pairs.
  unfoldable mutual
    pub to_string : ClValue → Result Text
    to_string (cl_bool true) = ok (codes "true")
    to_string (cl_bool false) = ok (codes "false")
    to_string (cl_i32 n) = ok (number_text n)
    to_string (cl_i64 n) = ok (number_text n)
    to_string (cl_u8 n) = ok (number_text n)
    to_string (cl_u32 n) = ok (number_text n)
    to_string (cl_u64 n) = ok (number_text n)
    to_string (cl_u128 n) = ok (number_text n.value)
    to_string (cl_u256 n) = ok (number_text n.value)
    to_string (cl_u512 n) = ok (number_text n.value)
    to_string cl_unit = ok (codes "null")
    to_string (cl_string s) = ok s
    to_string (cl_key k) = key_text k
    to_string (cl_uref u) = ok (uref_text u)
    to_string (cl_any bytes) = ok (any_text bytes)
    to_string (cl_public_key k) = public_key_text k
    to_string (cl_byte_array size bytes) = ok (to_hex bytes)
    to_string (cl_none t) = ok []
    to_string (cl_some t v) = to_string v
    to_string (cl_list t vs) = do texts ← all_strings vs; ok (91 ∷ (join_commas texts ++ 93 ∷ []))
    to_string (cl_result t u true v) = do s ← to_string v; ok (codes "Ok(" ++ (s ++ 41 ∷ []))
    to_string (cl_result t u false v) = do s ← to_string v; ok (codes "Err(" ++ (s ++ 41 ∷ []))
    to_string (cl_map t u es) = entry_strings es
    to_string (cl_tuple1 t v) = do s ← to_string v; ok (40 ∷ (s ++ 41 ∷ []))
    to_string (cl_tuple2 t u v w) = do
      s ← to_string v
      s' ← to_string w
      ok (40 ∷ (s ++ (codes ", " ++ (s' ++ 41 ∷ []))))
    to_string (cl_tuple3 t u r v w x) = do
      s ← to_string v
      s' ← to_string w
      s'' ← to_string x
      ok (40 ∷ (s ++ (codes ", " ++ (s' ++ (codes ", " ++ (s'' ++ 41 ∷ []))))))
    to_string (cl_untyped t) = err type_error

    pub all_strings : ClValues → Result (List Text)
    all_strings nil = ok []
    all_strings (cons v vs) = do s ← to_string v; more ← all_strings vs; ok (quoted s ∷ more)

    pub entry_strings : Entries → Result Text
    entry_strings end = ok []
    entry_strings (entry k v es) = do
      s ← to_string k
      s' ← to_string v
      more ← entry_strings es
      ok (40 ∷ (s ++ (61 ∷ (quoted s' ++ (41 ∷ more)))))

  mutual
    unfolding to_string all_strings entry_strings plain plain_all plain_entries

    pub to_string-plain : (v : ClValue) → to_string (plain v) ≡ to_string v
    to_string-plain (cl_some t v) = to_string-plain v
    to_string-plain (cl_list t vs) = rw (all_strings-plain_all vs) refl
    to_string-plain (cl_result t u true v) = rw (to_string-plain v) refl
    to_string-plain (cl_result t u false v) = rw (to_string-plain v) refl
    to_string-plain (cl_map t u es) = entry_strings-plain_entries es
    to_string-plain (cl_tuple1 t v) = rw (to_string-plain v) refl
    to_string-plain (cl_tuple2 t u v w) = rw (to_string-plain v, to_string-plain w) refl
    to_string-plain (cl_tuple3 t u s v w x) =
        rw (to_string-plain v, to_string-plain w, to_string-plain x) refl
    to_string-plain (cl_u128 n) = refl
    to_string-plain (cl_u256 n) = refl
    to_string-plain (cl_u512 n) = refl
    to_string-plain _ = refl

    all_strings-plain_all : (vs : ClValues) → all_strings (plain_all vs) ≡ all_strings vs
    all_strings-plain_all nil = refl
    all_strings-plain_all (cons v vs) = rw (to_string-plain v, all_strings-plain_all vs) refl

    entry_strings-plain_entries :
        (es : Entries) → entry_strings (plain_entries es) ≡ entry_strings es
    entry_strings-plain_entries end = refl
    entry_strings-plain_entries (entry k v es) =
        rw (to_string-plain k, to_string-plain v, entry_strings-plain_entries es) refl

  -- The texts of the program: those of its values, compared as they are.
  abbrev pub value_texts : KeyTexts
  value_texts = record { to_text = to_string; same_text = text_eq; to_text-plain = to_string-plain }
