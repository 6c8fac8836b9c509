-- ===== src/Args/Buffered.antt =====
-- src/types/Args.ts, `toBytesWithNamedArg`: an argument, written into a buffer that grows.
use casper_js_sdk.Prelude.{
  ℕ, ◌+◌, ◌-◌, ◌%◌, ◌^◌, ◌≤◌, ◌<◌, ◌≡◌, refl, ◌∙◌, arith, [], ◌++◌, append_assoc, append-nil,
  length, take, drop, take-append, length-append, length-replicate, length-drop, replicate, ltb,
  Bool-cases, inl, inr, if◌then◌else◌, Result, ok, err, ◌>>=◌,
}
use native.Mathlib.Nat.{mod-eq_of_lt}
use casper_js_sdk.Prelude.Words.{Bytes, le_bytes, length-le_bytes}
use casper_js_sdk.Ethers.{Ethers}
use casper_js_sdk.Ethers.Concat.{concat2}
use casper_js_sdk.ByteConverters.Buffer.{
  expand_buffer, expand_buffer_lem, set_at, set_at-append, write_integer,
}
use casper_js_sdk.Text.{utf8}
use casper_js_sdk.Text.RoundTrip.{to_bytes_string_lem}
use casper_js_sdk.ClValue.Parser.{to_bytes_with_type}
use casper_js_sdk.Args.{NamedArg, named_arg_to_bytes}

-- The buffer, expanded if it is too small.
unfoldable pub make_room : Bytes → ℕ → Result Bytes
make_room buffer required =
    let expanded = expand_buffer buffer required in
    if ltb (length buffer) required then expanded else ok buffer

-- The first part of `toBytesWithNamedArg`: a buffer of 1024 bytes, and in it the size of the name and
-- the name.
unfoldable pub set_name : Bytes → Result Bytes
set_name name_bytes = do
  buffer ← make_room (replicate 1024 0) (4 + length name_bytes)
  counted ← write_integer 0 (length name_bytes) buffer
  set_at 4 name_bytes counted

-- The second part: the value behind it, and all that is written.
unfoldable pub set_value : ℕ → Bytes → Bytes → Result Bytes
set_value offset named value_bytes = do
  room ← make_room named (offset + length value_bytes)
  whole ← set_at offset value_bytes room
  ok (take (offset + length value_bytes) whole)

unfoldable pub to_bytes_with_named_arg : ⦃e : Ethers⦄ → NamedArg → Result Bytes
to_bytes_with_named_arg a = do
  named ← set_name (utf8 a.name)
  value_bytes ← to_bytes_with_type a.value
  set_value (4 + length (utf8 a.name)) named value_bytes

pub room_lem :
    (buffer : Bytes) (required : ℕ)
    → 0 < length buffer
    → (pad : Bytes) × (make_room buffer required ≡ ok (buffer ++ pad))
      × (required ≤ length buffer + length pad)
unfolding make_room
room_lem buffer required h = elim (Bool-cases (ltb (length buffer) required)) [
  | inl small ↦
      let (k, run, enough, tight) = expand_buffer_lem buffer required h in
      (replicate k 0, rw (small, run), omega (arith, enough, length-replicate {A = ℕ} k 0))
  | inr large ↦ ([], rw (large, append-nil), ground arith)
]

pub put :
    (offset : ℕ) (written pad bytes : Bytes)
    → length written ≡ offset
    → length bytes ≤ length pad
    → (pad' : Bytes) × (set_at offset bytes (written ++ pad) ≡ ok ((written ++ bytes) ++ pad'))
      × (length pad' ≡ length pad - length bytes)
put offset written pad bytes l h = (
  drop (length bytes) pad,
  rw (← l, set_at-append written pad bytes h),
  length-drop (length bytes) pad,
)

pub bind_cong {ℓ ℓ'} :
    {A : Type ℓ} {B : Type ℓ'} (r : Result A) (f g : A → Result B)
    → ((a : A) → f a ≡ g a)
    → (r >>= f) ≡ (r >>= g)
bind_cong (err x) f g h = refl
bind_cong (ok a) f g h = h a

module _ (name : Bytes) (short : length name < 2 ^ 32) where
  head : Bytes
  head = le_bytes 4 (length name) ++ name

  name_steps :
      (buffer pad1 pad2 : Bytes)
      → make_room (replicate 1024 0) (4 + length name) ≡ ok buffer
      → set_at 0 (le_bytes 4 (length name)) buffer ≡ ok (le_bytes 4 (length name) ++ pad1)
      → set_at 4 name (le_bytes 4 (length name) ++ pad1) ≡ ok (head ++ pad2)
      → set_name name ≡ ok (head ++ pad2)
  unfolding set_name write_integer
  name_steps buffer pad1 pad2 room counted named =
      let kept : length name % 2 ^ 32 ≡ length name = mod-eq_of_lt short in
      rw (room, write_integer, kept, counted, named)

  -- The buffer after the name is set: its size, the name, and what is left of it.
  name_set : (pad : Bytes) × (set_name name ≡ ok (head ++ pad))
  unfolding head
  name_set =
      let size = length-le_bytes 4 (length name) in
      let zeros = length-replicate {A = ℕ} 1024 0 in
      let (pad, room, enough) =
        room_lem (replicate 1024 0) (4 + length name) (omega (arith, zeros)) in
      let buffer = replicate 1024 0 ++ pad in
      let total = length-append (replicate 1024 0) pad in
      let (pad1, counted, left1) =
        put 0 [] buffer (le_bytes 4 (length name)) refl (omega (arith, enough, total, size)) in
      let (pad2, named, left2) =
        put 4 (le_bytes 4 (length name)) pad1 name size
          (omega (arith, enough, total, size, left1)) in
      (pad2, name_steps buffer pad1 pad2 room counted named)

  -- From there on: room for the value, the value, and all that is written.
  value_set :
      (pad value : Bytes) → set_value (4 + length name) (head ++ pad) value ≡ ok (head ++ value)
  unfolding head set_value
  value_set pad value =
      let size = length-le_bytes 4 (length name) in
      let start : length head ≡ 4 + length name =
        rw (length-append (le_bytes 4 (length name)) name, size) in
      let (more, room, enough) =
        room_lem (head ++ pad) (4 + length name + length value)
          (omega (arith, start, length-append head pad)) in
      let (left, whole, _) =
        put (4 + length name) head (pad ++ more) value start
          (omega (arith, enough, start, length-append head pad, length-append pad more)) in
      let all : length (head ++ value) ≡ 4 + length name + length value =
        rw (length-append head value, start) in
      rw (
        room,
        append_assoc head pad more,
        whole,
        take-append (head ++ value) left (4 + length name + length value) all,
      )

-- NamedArg.toBytesWithNamedArg writes, into a buffer that it expands as it needs, exactly what
-- NamedArg.toBytes writes, and throws what that throws, for a name of less than 2 ^ 32 bytes.
pub to_bytes_with_named_arg-to_bytes :
    ⦃e : Ethers⦄ (a : NamedArg)
    → length (utf8 a.name) < 2 ^ 32
    → to_bytes_with_named_arg a ≡ named_arg_to_bytes a
unfolding to_bytes_with_named_arg named_arg_to_bytes head
to_bytes_with_named_arg-to_bytes ⦃e⦄ a short =
    let (pad, named) = name_set (utf8 a.name) short in
    rw (named, to_bytes_string_lem a.name short)
      (bind_cong (to_bytes_with_type a.value) _ _
        (λ value. value_set (utf8 a.name) short pad value ∙ rw (concat2)))
