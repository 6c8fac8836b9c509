-- ===== src/Examples/Arguments.antt =====
-- Runs of the named arguments and of the buffer that grows.
use casper_js_sdk.Prelude.{
  ℕ, ◌+◌, ◌*◌, ◌≤◌, ◌<◌, ◌≡◌, ◌⊎◌, inl, refl, arith, [], ◌∷◌, ◌++◌, replicate, ok,
}
use casper_js_sdk.Prelude.Int.{pos}
use casper_js_sdk.Prelude.Words.{Bytes, le_bytes}
use casper_js_sdk.Ethers.Model.{ethers_model}
use casper_js_sdk.ByteConverters.Buffer.{expand_buffer, expand_buffer_lem}
use casper_js_sdk.ByteConverters.Numbers.{to_bytes_u8-le_bytes}
use casper_js_sdk.Text.{utf8, utf8_char}
use casper_js_sdk.Text.Utf8.{utf8_decoder}
use casper_js_sdk.ClType.Encoding.{encodable, erase}
use casper_js_sdk.ClValue.{cl_u8, value_bytes}
use casper_js_sdk.ClValue.Readable.{Readable}
use casper_js_sdk.Args.{
  NamedArg, Args, text_eq, drop_mark, named_arg_to_bytes, args_to_bytes, args_from_bytes,
}
use casper_js_sdk.Args.Single.{IsArg}
use casper_js_sdk.Args.RoundTrip.{plain_args, args_from_bytes-to_bytes}
use casper_js_sdk.Args.Buffered.{to_bytes_with_named_arg, to_bytes_with_named_arg-to_bytes}
use casper_js_sdk.Examples.Composites.{sample_texts, u8_NeedsBytes}

abbrev first : NamedArg
first = record { name = 97 ∷ []; value = cl_u8 (pos 5) }

abbrev second : NamedArg
second = record { name = 98 ∷ []; value = cl_u8 (pos 6) }

first-IsArg : IsArg utf8_decoder sample_texts first
unfolding Readable encodable erase value_bytes utf8 utf8_char drop_mark le_bytes
first-IsArg = record {
  is_text = (inl (omega arith), tt);
  unmarked = refl;
  short_name = omega arith;
  readable = (le_bytes 1 5, to_bytes_u8-le_bytes 5 (omega arith));
  needs_bytes = u8_NeedsBytes;
  known = refl;
  static = refl;
  bytes = le_bytes 1 5;
  written = to_bytes_u8-le_bytes 5 (omega arith);
  short = omega arith;
}

second-IsArg : IsArg utf8_decoder sample_texts second
unfolding Readable encodable erase value_bytes utf8 utf8_char drop_mark le_bytes
second-IsArg = record {
  is_text = (inl (omega arith), tt);
  unmarked = refl;
  short_name = omega arith;
  readable = (le_bytes 1 6, to_bytes_u8-le_bytes 6 (omega arith));
  needs_bytes = u8_NeedsBytes;
  known = refl;
  static = refl;
  bytes = le_bytes 1 6;
  written = to_bytes_u8-le_bytes 6 (omega arith);
  short = omega arith;
}

args_from_bytes-to_bytes_example :
    (bytes : Bytes) × (args' : Args) × (args_to_bytes (first ∷ second ∷ []) ≡ ok bytes)
    × (args_from_bytes utf8_decoder sample_texts (bytes ++ 9 ∷ []) ≡ ok args')
    × (plain_args args' ≡ first ∷ second ∷ [])
args_from_bytes-to_bytes_example =
    args_from_bytes-to_bytes utf8_decoder sample_texts (first ∷ second ∷ []) (9 ∷ [])
      (first-IsArg, (second-IsArg, tt)) (unfold text_eq in (refl, (refl, tt))) (omega arith)

to_bytes_with_named_arg-to_bytes_example : to_bytes_with_named_arg first ≡ named_arg_to_bytes first
to_bytes_with_named_arg-to_bytes_example =
    to_bytes_with_named_arg-to_bytes first (unfold utf8 utf8_char in omega arith)

expand_buffer_lem_example :
    (k : ℕ) × (expand_buffer (1 ∷ 2 ∷ 3 ∷ []) 10 ≡ ok ((1 ∷ 2 ∷ 3 ∷ []) ++ replicate k 0))
    × (10 ≤ 3 + k)
    × ((k ≡ 0) ⊎ (3 + k < 10 * 2))
expand_buffer_lem_example = expand_buffer_lem (1 ∷ 2 ∷ 3 ∷ []) 10 (omega arith)
