-- ===== src/Transaction/Payload/RuntimeArgs.antt =====
-- What is written into the buffers of a payload.
use casper_js_sdk.Prelude.{
  ℕ, ◌+◌, ◌%◌, ◌^◌, ◌<◌, ◌≡◌, refl, ap, sym, ◌∙◌, arith, [], ◌∷◌, ◌++◌, append_assoc, append-nil,
  length, take-append, length-append, replicate, Result, ok, err, ◌>>=◌,
}
use native.Mathlib.Nat.{mod-eq_of_lt}
use casper_js_sdk.Prelude.Words.{Bytes, le_bytes}
use casper_js_sdk.Ethers.{Ethers}
use casper_js_sdk.ByteConverters.Buffer.{set_at}
use casper_js_sdk.ByteConverters.Numbers.{to_bytes_u32-le_bytes}
use casper_js_sdk.Text.{utf8}
use casper_js_sdk.Args.{Args, named_arg_to_bytes, each_to_bytes, args_to_bytes}
use casper_js_sdk.Args.Buffered.{room_lem, put, bind_cong, to_bytes_with_named_arg-to_bytes}
use casper_js_sdk.Transaction.Payload.{
  Buffer, write_next, written_part, write_args, runtime_args_bytes,
}

bind_assoc {ℓ ℓ' ℓ''} :
    {A : Type ℓ} {B : Type ℓ'} {C : Type ℓ''} (r : Result A) (f : A → Result B) (g : B → Result C)
    → ((r >>= f) >>= g) ≡ (r >>= λ a. f a >>= g)
bind_assoc (ok a) f g = refl
bind_assoc (err x) f g = refl

-- A buffer that is not empty, with `bytes` written from its start on and the offset behind them.
pub record Holds (bytes : Bytes) (b : Buffer) : Type 0 where
  pub pad : Bytes
  pub whole : b ≡ (bytes ++ pad, length bytes)
  pub nonempty : 0 < length (bytes ++ pad)

pub write_next-Holds :
    (bytes more : Bytes) (b : Buffer)
    → Holds bytes b
    → (b' : Buffer) × (write_next b more ≡ ok b') × Holds (bytes ++ more) b'
unfolding write_next
write_next-Holds bytes more b h =
    let (extra, room, enough) = room_lem (bytes ++ h.pad) (length bytes + length more) h.nonempty in
    let total = length-append bytes h.pad in
    let (left, set, kept) =
      put (length bytes) bytes (h.pad ++ extra) more refl
        (omega (arith, enough, total, length-append h.pad extra)) in
    (
      (bytes ++ more ++ left, length bytes + length more),
      rw (h.whole, write_next, room, append_assoc bytes h.pad extra, set),
      record {
        pad = left;
        whole = ap (λ n. (bytes ++ more ++ left, n)) (sym (length-append bytes more));
        nonempty = omega (
          arith,
          h.nonempty,
          enough,
          total,
          kept,
          length-append h.pad extra,
          length-append (bytes ++ more) left,
          length-append bytes more,
        );
      },
    )

pub written_part-Holds : (bytes : Bytes) (b : Buffer) → Holds bytes b → written_part b ≡ bytes
written_part-Holds bytes b h = rw (h.whole, take-append bytes h.pad (length bytes) refl)

module _ ⦃e : Ethers⦄ where
  abbrev pub ShortNames : Args → Type 0
  ShortNames [] = Unit
  ShortNames (a ∷ args) = (length (utf8 a.name) < 2 ^ 32) × ShortNames args

  -- The bytes of a buffer after the arguments.
  abbrev written : Result Buffer → Result Bytes
  written r = do b ← r; ok (written_part b)

  write_args-each_to_bytes :
      (args : Args)
      → ShortNames args
      → (head : Bytes) (b : Buffer) → Holds head b
      → written (write_args args b) ≡ (each_to_bytes args >>= λ parts. ok (head ++ e.concat parts))
  unfolding write_args each_to_bytes
  write_args-each_to_bytes [] h head b holds =
      rw (written_part-Holds head b holds, e.concat-nil, append-nil)
  write_args-each_to_bytes (a ∷ args) (short, h) head b holds =
      rw (to_bytes_with_named_arg-to_bytes a short, bind_assoc, bind_assoc)
        (bind_cong (named_arg_to_bytes a) _ _ (λ bytes.
          let (b', run, holds') = write_next-Holds head bytes b holds in
          rw (run) (
            write_args-each_to_bytes args h (head ++ bytes) b' holds'
            ∙ bind_cong (each_to_bytes args) _ (λ parts. ok (head ++ e.concat (bytes ∷ parts)))
                (λ parts. rw (e.concat-cons, append_assoc))
            ∙ sym (
                bind_assoc (each_to_bytes args) (λ parts. ok (bytes ∷ parts))
                  (λ parts. ok (head ++ e.concat parts))))))

  -- The buffer before the arguments: the byte 0 and their number.
  before_args :
      (n : ℕ)
      → (marked : Bytes) × (set_at 0 (0 ∷ []) (replicate 1024 0) ≡ ok marked)
        × (b : Buffer) × (write_next (marked, 1) (le_bytes 4 n) ≡ ok b)
        × Holds (0 ∷ le_bytes 4 n) b
  before_args n =
      let (pad, run, left) = put 0 [] (replicate 1024 0) (0 ∷ []) refl (ground arith) in
      let (b, next, holds) =
        write_next-Holds (0 ∷ []) (le_bytes 4 n) (0 ∷ pad, 1)
          (record { pad = pad; whole = refl; nonempty = ground arith }) in
      (0 ∷ pad, run, b, next, holds)

  -- TransactionV1Payload.toBytes writes the runtime arguments into a buffer that it expands as it
  -- needs. What it writes is the byte 0 and then what Args.toBytes writes, and it throws what that
  -- throws, for fewer than 2 ^ 32 arguments with names of less than 2 ^ 32 bytes each.
  pub runtime_args_bytes-args_to_bytes :
      (args : Args)
      → ShortNames args
      → length args < 2 ^ 32
      → runtime_args_bytes args ≡ (do bytes ← args_to_bytes args; ok (0 ∷ bytes))
  unfolding runtime_args_bytes args_to_bytes
  runtime_args_bytes-args_to_bytes args short few =
      let kept : length args % 2 ^ 32 ≡ length args = mod-eq_of_lt few in
      let (marked, run, b, next, holds) = before_args (length args) in
      rw (run, kept, next, to_bytes_u32-le_bytes (length args) few)
        (write_args-each_to_bytes args short (0 ∷ le_bytes 4 (length args)) b holds
          ∙ bind_cong (each_to_bytes args) _
              (λ parts. ok (0 ∷ e.concat (le_bytes 4 (length args) ∷ parts)))
              (λ parts. rw (e.concat-cons))
          ∙ sym (
              bind_assoc (each_to_bytes args)
                (λ parts. ok (e.concat (le_bytes 4 (length args) ∷ parts)))
                (λ bytes. ok (0 ∷ bytes))))
