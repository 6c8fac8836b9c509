-- ===== src/Conversions/RoundTrip.antt =====
-- motesToCSPR and csprToMotes.
use casper_js_sdk.Prelude.{
  ℕ, zero, suc, ◌+◌, ◌-◌, ◌*◌, ◌/◌, ◌%◌, ◌^◌, ◌≤◌, ◌<◌, ◌≡◌, sym, ap, append-nil, ◌∙◌, refl, arith,
  inl, inr, ltb, leb, ◌==◌, [], ◌∷◌, ◌++◌, length, length-append, length-take, length-drop,
  length-replicate, take-append-drop, take, drop, replicate, true, false, Bool-cases, none, some,
  ok, ◌>>=◌,
}
use casper_js_sdk.Prelude.Int.{pos}
use casper_js_sdk.Text.{Text}
use casper_js_sdk.Conversions.{
  value_from, digits_from, decimal, all_digits, some_digits, split_dot, nine_zeros, motes_of,
  cspr_to_motes, all_zeros, matches_end, strip_end, integer_part, decimal_part, motes_to_cspr,
}

value_from-append : (n : ℕ) (s t : Text) → value_from n (s ++ t) ≡ value_from (value_from n s) t
unfolding value_from
value_from-append n [] t = refl
value_from-append n (c ∷ s) t = value_from-append (10 * n + (c - 48)) s t

shift : (a d p v : ℕ) → (10 * a + d) * p + v ≡ a * (10 * p) + (d * p + v)
shift a d p v = grind arith

power : (k : ℕ) → 10 ^ suc k ≡ 10 * 10 ^ k
power k = omega arith

value_from_lem : (n : ℕ) (s : Text) → value_from n s ≡ n * 10 ^ length s + value_from 0 s
unfolding value_from
value_from_lem n [] = omega arith
value_from_lem n (c ∷ s) =
    value_from_lem (10 * n + (c - 48)) s
    ∙ shift n (c - 48) (10 ^ length s) (value_from 0 s)
    ∙ ap (λ v. n * (10 * 10 ^ length s) + v) (sym (value_from_lem (c - 48) s))
    ∙ (let zero_plus : 0 + (c - 48) ≡ c - 48 = omega arith in rw (power (length s), zero_plus) refl)

value_from-digits_from : (fuel n : ℕ) → n < fuel → value_from 0 (digits_from fuel n) ≡ n
unfolding digits_from value_from
value_from-digits_from zero n h = absurd (omega arith)
value_from-digits_from (suc fuel) n h = elim (Bool-cases (ltb n 10)) [
  | inl small ↦ rw (small) (omega arith)
  | inr large ↦
      let many : 10 ≤ n = ground arith in
      rw
        (
          large,
          value_from-append 0 (digits_from fuel (n / 10)) ((48 + n % 10) ∷ []),
          value_from-digits_from fuel (n / 10) (omega arith),
        )
        (omega arith)
]

all_digits-append :
    (s t : Text) → all_digits s ≡ true → all_digits t ≡ true → all_digits (s ++ t) ≡ true
unfolding all_digits
all_digits-append [] t hs ht = ht
all_digits-append (c ∷ s) t hs ht = ground (arith, all_digits-append s t)

all_digits-digits_from : (fuel n : ℕ) → all_digits (digits_from fuel n) ≡ true
unfolding digits_from all_digits
all_digits-digits_from zero n = refl
all_digits-digits_from (suc fuel) n = elim (Bool-cases (ltb n 10)) [
  | inl small ↦ rw (small) (ground arith)
  | inr large ↦ rw (large) (
      all_digits-append (digits_from fuel (n / 10)) _ (all_digits-digits_from fuel (n / 10))
        (ground arith))
]

value_from-zeros : (k : ℕ) (s : Text) → value_from 0 (replicate k 48 ++ s) ≡ value_from 0 s
unfolding value_from
value_from-zeros zero s = refl
value_from-zeros (suc k) s = value_from-zeros k s

all_digits-zeros : (k : ℕ) → all_digits (replicate k 48) ≡ true
unfolding all_digits
all_digits-zeros zero = refl
all_digits-zeros (suc k) = all_digits-zeros k

all_zeros-dot : (s t : Text) → all_zeros (s ++ 46 ∷ t) ≡ false
unfolding all_zeros
all_zeros-dot [] t = refl
all_zeros-dot (c ∷ s) t = rw (all_zeros-dot s t) (ground arith)

-- No match starts in front of the dot.
open_end : (c : ℕ) (s t : Text) → matches_end (c ∷ (s ++ 46 ∷ t)) ≡ false
unfolding matches_end all_zeros
open_end c [] t = ground arith
open_end c (c' ∷ s) t = rw (all_zeros-dot s t) (ground arith)

-- The end that is stripped of an integer and its decimals is that of the decimals.
strip_end-dot :
    (s t : Text) → all_digits s ≡ true → strip_end (s ++ 46 ∷ t) ≡ s ++ strip_end (46 ∷ t)
unfolding strip_end all_digits
strip_end-dot [] t digits = refl
strip_end-dot (c ∷ s) t digits = rw (open_end c s t, strip_end-dot s t (ground arith)) refl

split_dot-digits : (s : Text) → all_digits s ≡ true → split_dot s ≡ (s, none)
unfolding split_dot all_digits
split_dot-digits [] h = refl
split_dot-digits (c ∷ s) h =
    let other : (c == 46) ≡ false = ground arith in rw (split_dot-digits s (ground arith), other)

split_dot-append : (s t : Text) → all_digits s ≡ true → split_dot (s ++ 46 ∷ t) ≡ (s, some t)
unfolding split_dot all_digits
split_dot-append [] t h = refl
split_dot-append (c ∷ s) t h =
    let other : (c == 46) ≡ false = ground arith in rw (split_dot-append s t (ground arith), other)

zeros_lem : (s : Text) → all_zeros s ≡ true → replicate (length s) 48 ≡ s
unfolding all_zeros
zeros_lem [] h = refl
zeros_lem (c ∷ s) h = let first : c ≡ 48 = ground arith in rw (zeros_lem s (ground arith), first)

take-zeros : (k m : ℕ) → k ≤ m → take {A = ℕ} k (replicate m 48) ≡ replicate k 48
take-zeros zero m h = refl
take-zeros (suc k) zero h = absurd (omega arith)
take-zeros (suc k) (suc m) h = rw (take-zeros k m (omega arith))

-- Digits match the end if they are zeros.
digits_end : (c : ℕ) (s : Text) → 48 ≤ c → matches_end (c ∷ s) ≡ all_zeros (c ∷ s)
unfolding matches_end all_zeros
digits_end c [] h = ground arith
digits_end c (c' ∷ s) h = ground arith

-- Zeros behind the decimals that are left fill them up again.
fill_up :
    (s : Text) (m : ℕ)
    → all_digits s ≡ true
    → length s ≤ m
    → take (length s) (strip_end s ++ replicate m 48) ≡ s
unfolding strip_end all_digits
fill_up [] m h few = refl
fill_up (c ∷ s) m h few = elim (Bool-cases (all_zeros (c ∷ s))) [
  | inl zeros ↦
      let shut : matches_end (c ∷ s) ≡ true = digits_end c s (ground arith) ∙ zeros in
      rw (shut) (take-zeros (length (c ∷ s)) m few ∙ zeros_lem (c ∷ s) zeros)
  | inr others ↦
      let open_ : matches_end (c ∷ s) ≡ false = digits_end c s (ground arith) ∙ others in
      rw (open_, fill_up s m (ground arith) (omega arith)) refl
]

all_digits-strip_end : (s : Text) → all_digits s ≡ true → all_digits (strip_end s) ≡ true
unfolding strip_end all_digits
all_digits-strip_end [] h = refl
all_digits-strip_end (c ∷ s) h = elim (Bool-cases (matches_end (c ∷ s))) [
  | inl shut ↦ rw (shut)
  | inr open_ ↦ let rest = all_digits-strip_end s (ground arith) in rw (open_, rest) (ground arith)
]

-- Decimals that are not only zeros leave some digits.
some_digits-strip_end :
    (s : Text) → all_digits s ≡ true → all_zeros s ≡ false → some_digits (strip_end s) ≡ true
unfolding strip_end some_digits all_digits all_zeros
some_digits-strip_end [] h others = absurd (cc)
some_digits-strip_end (c ∷ s) h others =
    let open_ : matches_end (c ∷ s) ≡ false = digits_end c s (ground arith) ∙ others in
    let rest = all_digits-strip_end s (ground arith) in rw (open_, rest) (ground arith)

-- The parts of a text of digits: its integer, and nine decimals.
record Parts (s : Text) : Type 0 where
  integer : all_digits (integer_part s) ≡ true
  some_integer : some_digits (integer_part s) ≡ true
  decimals : all_digits (decimal_part s) ≡ true
  nine : length (decimal_part s) ≡ 9
  whole : value_from (value_from 0 (integer_part s)) (decimal_part s) ≡ value_from 0 s

some_digits_lem : (s : Text) → all_digits s ≡ true → 0 < length s → some_digits s ≡ true
unfolding some_digits
some_digits_lem [] h many = absurd (omega arith)
some_digits_lem (c ∷ s) h many = h

all_digits-take : (k : ℕ) (s : Text) → all_digits s ≡ true → all_digits (take k s) ≡ true
unfolding all_digits
all_digits-take zero s h = refl
all_digits-take (suc k) [] h = refl
all_digits-take (suc k) (c ∷ s) h = ground (arith, all_digits-take k s)

all_digits-drop : (k : ℕ) (s : Text) → all_digits s ≡ true → all_digits (drop k s) ≡ true
unfolding all_digits
all_digits-drop zero s h = h
all_digits-drop (suc k) [] h = refl
all_digits-drop (suc k) (c ∷ s) h = all_digits-drop k s (ground arith)

few-Parts : (s : Text) → all_digits s ≡ true → length s ≤ 9 → Parts s
unfolding integer_part decimal_part value_from all_digits some_digits
few-Parts s digits few =
    let short : leb (length s) 9 ≡ true = ground arith in
    let none_more : length s - 9 ≡ 0 = omega arith in
    record {
      integer = rw (short) refl;
      some_integer = rw (short) refl;
      decimals = rw (none_more) (
          all_digits-append (replicate (9 - length s) 48) s (all_digits-zeros (9 - length s))
            digits);
      nine = rw (none_more) (
          length-append (replicate (9 - length s) 48) s
          ∙ omega (arith, length-replicate {A = ℕ} (9 - length s) 48));
      whole = rw (short, none_more) (value_from-zeros (9 - length s) s);
    }

many-Parts : (s : Text) → all_digits s ≡ true → 9 < length s → Parts s
unfolding integer_part decimal_part
many-Parts s digits many =
    let long : leb (length s) 9 ≡ false = ground arith in
    let nine : length (drop (length s - 9) s) ≡ 9 = omega (arith, length-drop (length s - 9) s) in
    let many_left : 0 < length (take (length s - 9) s) =
      omega (arith, length-take (length s - 9) s) in
    let front = all_digits-take (length s - 9) s digits in
    record {
      integer = rw (long) front;
      some_integer = rw (long) (some_digits_lem (take (length s - 9) s) front many_left);
      decimals = rw (nine) (all_digits-drop (length s - 9) s digits);
      nine = rw (nine) nine;
      whole =
          rw (long, nine)
            (sym (value_from-append 0 (take (length s - 9) s) (drop (length s - 9) s))
              ∙ rw (take-append-drop (length s - 9) s) refl);
    }

dot_end : (s : Text) → 0 < length s → matches_end (46 ∷ s) ≡ all_zeros s
unfolding matches_end
dot_end [] h = absurd (omega arith)
dot_end (c ∷ s) h = refl

value_from-all_zeros : (s : Text) → all_zeros s ≡ true → value_from 0 s ≡ 0
unfolding value_from
value_from-all_zeros s h = rw⁻¹ (zeros_lem s h) (zeros_value (length s))
  where
    zeros_value : (k : ℕ) → value_from 0 (replicate k 48) ≡ 0
    zeros_value zero = refl
    zeros_value (suc k) = zeros_value k

-- What csprToMotes makes of the two parts, with what is stripped off their end.
cspr_to_motes-strip_end :
    (integer decimals : Text)
    → all_digits integer ≡ true
    → some_digits integer ≡ true
    → all_digits decimals ≡ true
    → length decimals ≡ 9
    → cspr_to_motes (strip_end (integer ++ 46 ∷ decimals))
      ≡ ok (value_from 0 integer * 10 ^ 9 + value_from 0 decimals)
unfolding cspr_to_motes motes_of strip_end
cspr_to_motes-strip_end integer decimals digits some_integer behind nine =
    let is_end : matches_end (46 ∷ decimals) ≡ all_zeros decimals =
      dot_end decimals (omega arith) in
    elim (Bool-cases (all_zeros decimals)) [
      | inl zeros ↦
          let text : strip_end (integer ++ 46 ∷ decimals) ≡ integer =
            strip_end-dot integer decimals digits ∙ rw (is_end, zeros) (append-nil integer) in
          rw
            (
              text,
              split_dot-digits integer digits,
              some_integer,
              value_from-all_zeros decimals zeros,
            )
            (ap ok (omega arith))
      | inr others ↦
          let text : strip_end (integer ++ 46 ∷ decimals) ≡ integer ++ 46 ∷ strip_end decimals =
            strip_end-dot integer decimals digits ∙ rw (is_end, others) refl in
          let filled : take 9 (strip_end decimals ++ nine_zeros) ≡ decimals =
            rw (nine) at (fill_up decimals 9 behind (omega arith)) in
          rw (
            text,
            split_dot-append integer (strip_end decimals) digits,
            some_integer,
            some_digits-strip_end decimals behind others,
            filled,
          )
    ]

digits_Parts : (s : Text) → all_digits s ≡ true → Parts s
digits_Parts s h = elim (Bool-cases (leb (length s) 9)) [
  | inl few ↦ few-Parts s h (ground arith)
  | inr many ↦ many-Parts s h (ground arith)
]

-- csprToMotes reads back the amount that motesToCSPR wrote, for every amount that is not negative.
pub cspr_to_motes-motes_to_cspr :
    (motes : ℕ) → (motes_to_cspr (pos motes) >>= cspr_to_motes) ≡ ok motes
unfolding motes_to_cspr
cspr_to_motes-motes_to_cspr motes =
    let p = digits_Parts (decimal motes) (all_digits-digits_from (suc motes) motes) in
    let sum =
      value_from_lem (value_from 0 (integer_part (decimal motes))) (decimal_part (decimal motes)) in
    let read = value_from-digits_from (suc motes) motes (omega arith) in
    cspr_to_motes-strip_end (integer_part (decimal motes)) (decimal_part (decimal motes)) p.integer
      p.some_integer p.decimals p.nine
    ∙ ap ok (sym (rw (p.nine) at sum) ∙ p.whole ∙ read)
