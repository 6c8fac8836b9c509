-- ===== src/Args.antt =====
-- src/types/Args.ts: the named arguments of a transaction.
pub mod Single
pub mod RoundTrip
pub mod Buffered
use casper_js_sdk.Prelude.{
  ℕ, zero, suc, ◌+◌, ◌≡◌, refl, inl, inr, arith, Bool-cases, ==_refl, List, [], ◌∷◌, ◌++◌, length,
  take, drop, ltb, ◌==◌, Bool, true, false, ◌&&◌, if◌then◌else◌, Option, none, some, Result, ok,
  err, ◌>>=◌, range_error,
}
use casper_js_sdk.Prelude.Int.{ℤ, pos}
use casper_js_sdk.Prelude.Words.{Bytes}
use casper_js_sdk.Ethers.{Ethers}
use casper_js_sdk.ByteConverters.{to_bytes_u32}
use casper_js_sdk.Numeric.{Parsed}
use casper_js_sdk.Text.{Text, Decoder, to_bytes_string}
use casper_js_sdk.Key.Entity.{read_u32}
use casper_js_sdk.ClValue.{ClValue}
use casper_js_sdk.ClValue.Parser.{KeyTexts, from_bytes_with_type, to_bytes_with_type}

pub record NamedArg : Type 0 where
  pub name : Text
  pub value : ClValue

-- A JavaScript map with texts for keys: its entries in the order of their first insertion.
abbrev pub Args : Type 0
Args = List NamedArg

-- Two texts with the same code points.
unfoldable pub text_eq : Text → Text → Bool
text_eq [] [] = true
text_eq (c ∷ s) (c' ∷ s') = c == c' && text_eq s s'
text_eq _ _ = false

pub text_eq_refl : (s : Text) → text_eq s s ≡ true
unfolding text_eq
text_eq_refl [] = refl
text_eq_refl (c ∷ s) = rw (==_refl c, text_eq_refl s)

pub text_eq-≡ : (s t : Text) → text_eq s t ≡ true → s ≡ t
unfolding text_eq
text_eq-≡ [] [] h = refl
text_eq-≡ [] (c ∷ t) h = absurd (cc)
text_eq-≡ (c ∷ s) [] h = absurd (cc)
text_eq-≡ (c ∷ s) (c' ∷ t) h = elim (Bool-cases (text_eq s t)) [
  | inl same ↦ let rest = text_eq-≡ s t same in let first : c ≡ c' = ground arith in cc
  | inr other ↦ absurd (ground arith)
]

-- `getByName`
unfoldable pub get_by_name : Text → Args → Option ClValue
get_by_name name [] = none
get_by_name name (a ∷ args) = if text_eq a.name name then some a.value else get_by_name name args

-- `insert`, which is `set` of the map: the value of a name that is there is replaced in its place.
unfoldable pub insert : Text → ClValue → Args → Args
insert name value [] = record { name = name; value = value } ∷ []
insert name value (a ∷ args) =
    if text_eq a.name name
    then record { name = name; value = value } ∷ args
    else a ∷ insert name value args

-- `TextDecoder.decode` passes over a byte order mark in front.
unfoldable pub drop_mark : Text → Text
drop_mark [] = []
drop_mark (c ∷ s) = if c == 0xfeff then s else c ∷ s

module _ ⦃e : Ethers⦄ where
  -- `NamedArg.toBytes`
  unfoldable pub named_arg_to_bytes : NamedArg → Result Bytes
  named_arg_to_bytes a = do
    name ← to_bytes_string a.name
    value ← to_bytes_with_type a.value
    ok (e.concat (name ∷ value ∷ []))

  -- `NamedArg.fromBytes`, of an array that fills its buffer.
  unfoldable pub named_arg_from_bytes : Decoder → KeyTexts → Bytes → Result NamedArg
  named_arg_from_bytes d texts bytes = do
    (name_length, rest) ← read_u32 bytes
    (value, _) ← from_bytes_with_type d texts (drop name_length rest)
    ok (record { name = drop_mark (d.decode (take name_length rest)); value = value })

  unfoldable pub each_to_bytes : Args → Result (List Bytes)
  each_to_bytes [] = ok []
  each_to_bytes (a ∷ args) = do
    bytes ← named_arg_to_bytes a
    parts ← each_to_bytes args
    ok (bytes ∷ parts)

  -- `Args.toBytes`
  unfoldable pub args_to_bytes : Args → Result Bytes
  args_to_bytes args = do
    parts ← each_to_bytes args
    count ← to_bytes_u32 (pos (length args))
    ok (e.concat (count ∷ parts))

  -- `consumedBytes`: the value is written again, to learn how many bytes it took.
  unfoldable pub consumed : Bytes → NamedArg → Result ℕ
  consumed bytes a = do
    (name_length, _) ← read_u32 bytes
    value ← to_bytes_with_type a.value
    ok (4 + name_length + length value)

  -- The loop of `Args.fromBytes`; the bytes are those from `offset` on.
  unfoldable pub read_args : Decoder → KeyTexts → ℕ → Bytes → Args → Result Args
  read_args d texts zero bytes args = ok args
  read_args d texts (suc i) bytes args = do
    a ← named_arg_from_bytes d texts bytes
    n ← consumed bytes a
    read_args d texts i (drop n bytes) (insert a.name a.value args)

  -- `Args.fromBytes`, of an array that fills its buffer.
  unfoldable pub args_from_bytes : Decoder → KeyTexts → Bytes → Result Args
  args_from_bytes d texts bytes = do
    (num_args, rest) ← read_u32 bytes
    read_args d texts num_args rest []
