-- ===== src/Conversions.antt =====
-- src/types/Conversions.ts: amounts in motes and in CSPR, of 10 ^ 9 motes.
pub mod RoundTrip
use casper_js_sdk.Prelude.{
  ℕ, zero, suc, ◌+◌, ◌-◌, ◌*◌, ◌/◌, ◌%◌, ◌^◌, ltb, leb, ◌==◌, List, [], ◌∷◌, ◌++◌, length, take,
  drop, replicate, Bool, true, false, ◌&&◌, ◌||◌, not, if◌then◌else◌, Option, none, some, Result,
  ok, err, invalid_cspr, negative_motes,
}
use casper_js_sdk.Prelude.Int.{ℤ, pos, negsuc}
use casper_js_sdk.Text.{Text}

-- The number of a text of decimal digits behind those of a number
unfoldable pub value_from : ℕ → Text → ℕ
value_from number [] = number
value_from number (c ∷ digits) = value_from (10 * number + (c - 48)) digits

-- The decimal digits of a number, which are no more than the number and one
unfoldable pub digits_from : ℕ → ℕ → Text
digits_from zero n = []
digits_from (suc fuel) n =
    let higher = digits_from fuel (n / 10) in
    if ltb n 10 then (48 + n) ∷ [] else higher ++ (48 + n % 10) ∷ []

-- `toString` of an integer
abbrev pub decimal : ℕ → Text
decimal n = digits_from (suc n) n

-- `\d*`, of a whole text
unfoldable pub all_digits : Text → Bool
all_digits [] = true
all_digits (c ∷ s) = leb 48 c && (leb c 57 && all_digits s)

-- `\d+`
unfoldable pub some_digits : Text → Bool
unfolding all_digits
some_digits [] = false
some_digits (c ∷ s) = all_digits (c ∷ s)

-- The first two parts of `split('.')`, the second if there is one
unfoldable pub split_dot : Text → Text × Option Text
split_dot [] = ([], none)
split_dot (c ∷ s) =
    let (front, behind) = split_dot s in if c == 46 then ([], some s) else (c ∷ front, behind)

abbrev pub nine_zeros : Text
nine_zeros = replicate 9 48

-- `csprToMotes` of a text, given the parts of the split
unfoldable pub motes_of : Text → Option Text → Result ℕ
unfolding some_digits
motes_of integer none =
    if some_digits integer then ok (value_from 0 integer * 10 ^ 9) else err invalid_cspr
motes_of integer (some part) =
    if some_digits integer && some_digits part
    then ok (value_from 0 integer * 10 ^ 9 + value_from 0 (take 9 (part ++ nine_zeros)))
    else err invalid_cspr

-- `csprToMotes` of a text
unfoldable pub cspr_to_motes : Text → Result ℕ
unfolding split_dot motes_of
cspr_to_motes cspr = motes_of (split_dot cspr).0 (split_dot cspr).1

-- `0*`, of a whole text
unfoldable pub all_zeros : Text → Bool
all_zeros [] = true
all_zeros (c ∷ s) = c == 48 && all_zeros s

-- `/^\.?0+$/`
unfoldable pub matches_end : Text → Bool
unfolding all_zeros
matches_end [] = false
matches_end (c ∷ []) = c == 48
matches_end (c ∷ c' ∷ s) = (c == 46 || c == 48) && all_zeros (c' ∷ s)

-- `replace(/\.?0+$/, '')`, which replaces the first match
unfoldable pub strip_end : Text → Text
unfolding matches_end
strip_end [] = []
strip_end (c ∷ s) = let rest = strip_end s in if matches_end (c ∷ s) then [] else c ∷ rest

-- `motesToCSPR`; `slice(0, -9)` and `slice(-9)` count from the end.
unfoldable pub integer_part : Text → Text
integer_part digits = if leb (length digits) 9 then 48 ∷ [] else take (length digits - 9) digits

unfoldable pub decimal_part : Text → Text
decimal_part digits =
    let behind = drop (length digits - 9) digits in replicate (9 - length behind) 48 ++ behind

unfoldable pub motes_to_cspr : ℤ → Result Text
unfolding integer_part decimal_part strip_end
motes_to_cspr (negsuc n) = err negative_motes
motes_to_cspr (pos n) = ok (strip_end (integer_part (decimal n) ++ 46 ∷ decimal_part (decimal n)))
