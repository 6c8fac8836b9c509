-- ===== src/Args/RoundTrip.antt =====
-- Named arguments, written and read back.
use casper_js_sdk.Prelude.{
  ◌^◌, ◌<◌, ◌≡◌, refl, ap, List, [], ◌∷◌, ◌++◌, append_assoc, append-nil, length, drop-append, Bool,
  false, ◌||◌, Bool-cases, inl, inr, ok,
}
use casper_js_sdk.Prelude.Words.{Bytes, le_bytes}
use casper_js_sdk.Ethers.{Ethers}
use casper_js_sdk.ByteConverters.Numbers.{to_bytes_u32-le_bytes}
use casper_js_sdk.Text.{Text, Decoder}
use casper_js_sdk.Key.Entity.RoundTrip.{read_u32-le_bytes}
use casper_js_sdk.ClValue.{ClValue}
use casper_js_sdk.ClValue.Plain.{plain}
use casper_js_sdk.ClValue.Parser.{KeyTexts}
use casper_js_sdk.Args.{
  NamedArg, Args, text_eq, insert, each_to_bytes, args_to_bytes, read_args, args_from_bytes,
}
use casper_js_sdk.Args.Single.{IsArg, arg_reads}

abbrev pub names : Args → List Text
names [] = []
names (a ∷ args) = a.name ∷ names args

abbrev pub is_member : Text → List Text → Bool
is_member name [] = false
is_member name (n ∷ ns) = text_eq n name || is_member name ns

-- The names are different from each other and from those before.
abbrev pub Distinct : List Text → Args → Type 0
Distinct before [] = Unit
Distinct before (a ∷ args) =
    (is_member a.name before ≡ false) × Distinct (before ++ a.name ∷ []) args

-- The arguments without the bytes that their large numbers were read from.
abbrev pub plain_args : Args → Args
plain_args [] = []
plain_args (a ∷ args) = record { name = a.name; value = plain a.value } ∷ plain_args args

insert_new :
    (name : Text) (value : ClValue) (args : Args)
    → is_member name (names args) ≡ false
    → insert name value args ≡ args ++ record { name = name; value = value } ∷ []
unfolding insert
insert_new name value [] h = refl
insert_new name value (a ∷ args) h = elim (Bool-cases (text_eq a.name name)) [
  | inl same ↦ absurd (cc (rw (same) at h))
  | inr other ↦ rw (other) (ap (λ t. a ∷ t) (insert_new name value args (rw (other) at h)))
]

names-append : (args : Args) (a : NamedArg) → names (args ++ a ∷ []) ≡ names args ++ a.name ∷ []
names-append [] a = refl
names-append (b ∷ args) a = ap (λ t. b.name ∷ t) (names-append args a)

module _ ⦃e : Ethers⦄ (d : Decoder) (texts : KeyTexts) where
  abbrev pub AllArg : Args → Type 0
  AllArg [] = Unit
  AllArg (a ∷ args) = IsArg d texts a × AllArg args

  -- What the loop of Args.fromBytes does with the arguments, given those before.
  record ReadsArgs (args : Args) : Type 0 where
    parts : List Bytes
    written : each_to_bytes args ≡ ok parts
    read :
        (before : Args) (rest : Bytes)
        → Distinct (names before) args
        → (args' : Args) × (read_args d texts (length args) (e.concat parts ++ rest) before
            ≡ ok (before ++ args'))
          × (plain_args args' ≡ args)

  args_read : (args : Args) → AllArg args → ReadsArgs args
  unfolding each_to_bytes read_args
  args_read [] h = record {
    parts = [];
    written = refl;
    read = λ before rest k. ([], rw (append-nil), refl);
  }
  args_read (a ∷ args) (h, hs) =
      let r = arg_reads d texts a h in
      let q = args_read args hs in
      record {
        parts = r.bytes ∷ q.parts;
        written = rw (r.written, q.written);
        read = λ before rest (new, k).
            let (v, back, used, same) = r.read (e.concat q.parts ++ rest) in
            let a' : NamedArg = record { name = a.name; value = v } in
            let (args', back', same') =
              q.read (before ++ a' ∷ []) rest (rw (names-append before a') k) in
            (
              a' ∷ args',
              rw (
                e.concat-cons r.bytes q.parts,
                append_assoc r.bytes (e.concat q.parts) rest,
                back,
                used,
                drop-append r.bytes (e.concat q.parts ++ rest) (length r.bytes) refl,
                insert_new a.name v before new,
                back',
                append_assoc before (a' ∷ []) args',
              ),
              rw (same, same'),
            );
      }

  -- Fewer than 2 ^ 32 arguments with different names, each name a text without a byte order mark
  -- in front and of less than 2 ^ 32 bytes, each value readable, of less than 2 ^ 32 bytes and of
  -- a type that takes a byte at least, has no dynamic parts and whose byte array sizes are from 0
  -- to below 2 ^ 32, are written, and Args.fromBytes reads them back in their order, whatever
  -- follows; the values differ only in the original bytes that their large numbers keep.
  pub args_from_bytes-to_bytes :
      (args : Args) (rest : Bytes)
      → AllArg args
      → Distinct [] args
      → length args < 2 ^ 32
      → (bytes : Bytes) × (args' : Args) × (args_to_bytes args ≡ ok bytes)
        × (args_from_bytes d texts (bytes ++ rest) ≡ ok args')
        × (plain_args args' ≡ args)
  unfolding args_to_bytes args_from_bytes
  args_from_bytes-to_bytes args rest h k small =
      let q = args_read args h in
      let (args', back, same) = q.read [] rest k in
      (
        le_bytes 4 (length args) ++ e.concat q.parts,
        args',
        rw (q.written, to_bytes_u32-le_bytes (length args) small, e.concat-cons),
        rw (
          append_assoc (le_bytes 4 (length args)) (e.concat q.parts) rest,
          read_u32-le_bytes (length args) (e.concat q.parts ++ rest) small,
          back,
        ),
        same,
      )
