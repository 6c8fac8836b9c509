-- ===== src/Rpc/Confirmation.antt =====
-- src/rpc/rpc_client.ts, `waitForConfirmation`: asking again until a transaction was executed.
use casper_js_sdk.Prelude.{
  ℕ, zero, suc, ◌+◌, ◌*◌, ◌-◌, ◌≤◌, ◌≡◌, ◌⊎◌, inl, inr, refl, arith, leb, Bool, true, false,
  Bool-cases, if◌then◌else◌,
}
use casper_js_sdk.Text.{Text}

-- How a call of `getInfo`, raced against the deadline, ended: with an information, that the
-- transaction was executed or not, with an error, or past the deadline.
pub data Poll (I : Type 0) : Type 0 where
  executed : I → Poll I
  pending : Poll I
  error : Text → Poll I
  expired : Poll I

-- How the calls end, and when, in milliseconds from the start. Between two calls the client sleeps
-- for 400 milliseconds at least, and a timer never fires early.
pub record Polls (I : Type 0) : Type 0 where
  pub poll : ℕ → Poll I
  pub ended : ℕ → ℕ
  pub spaced : (n : ℕ) → ended n + 400 ≤ ended (suc n)

pub data Confirmation (I : Type 0) : Type 0 where
  confirmed : I → Confirmation I
  timed_out : Confirmation I
  -- the message of the last error, after the most retries
  gave_up : Text → Confirmation I
  -- no outcome of the program: the model ran out of fuel
  unfinished : Confirmation I

module _ {I : Type 0} (p : Polls I) (timeout max_retries : ℕ) where
  -- `timedOut()` behind call `n`
  abbrev pub late : ℕ → Bool
  late n = leb timeout (p.ended n)

  -- The errors so far, behind a call
  abbrev pub attempts_after : Poll I → ℕ → ℕ
  attempts_after (error message) attempts = suc attempts
  attempts_after _ attempts = attempts

  -- A round of the loop, given what the rounds behind it come to.
  unfoldable pub round : Poll I → Bool → ℕ → Confirmation I → Confirmation I
  round (executed info) is_late attempts rest = confirmed info
  round expired is_late attempts rest = timed_out
  round pending is_late attempts rest = if is_late then timed_out else rest
  round (error message) is_late attempts rest =
      if leb max_retries attempts then gave_up message else if is_late then timed_out else rest

  -- The loop, from call `n` on, after as many errors as `attempts`
  unfoldable pub wait_from : ℕ → ℕ → ℕ → Confirmation I
  unfolding round
  wait_from zero n attempts = unfinished
  wait_from (suc fuel) n attempts =
      let rest = wait_from fuel (suc n) (attempts_after (p.poll n) attempts) in
      round (p.poll n) (late n) attempts rest

  -- Each round takes 400 milliseconds, so a round for each millisecond of the timeout, and one more,
  -- are enough.
  unfoldable pub wait_for_confirmation : Confirmation I
  unfolding wait_from
  wait_for_confirmation = wait_from (suc timeout) 0 0

  ended_by : (n : ℕ) → 400 * n ≤ p.ended n
  ended_by zero = omega arith
  ended_by (suc n) = omega (arith, ended_by n, p.spaced n)

  -- What an outcome says of the calls from call `n` on, where there were as many errors before as
  -- `attempts`. Nothing explains the outcome `unfinished`.
  pub data Explains (attempts n : ℕ) : Confirmation I → Type 0 where
    on_time :
        (k : ℕ) (info : I) → n ≤ k → p.poll k ≡ executed info → Explains attempts n (confirmed info)
    too_late :
        (k : ℕ) → n ≤ k → (p.poll k ≡ expired) ⊎ (late k ≡ true) → Explains attempts n timed_out
    retried :
        (k : ℕ) (message : Text)
        → n ≤ k
        → p.poll k ≡ error message
        → max_retries ≤ attempts + (k - n)
        → Explains attempts n (gave_up message)

  later :
      (attempts attempts' n : ℕ) (r : Confirmation I)
      → attempts' ≤ suc attempts
      → Explains attempts' (suc n) r
      → Explains attempts n r
  later attempts attempts' n _ h (on_time k info after was) = on_time k info (omega arith) was
  later attempts attempts' n _ h (too_late k after was) = too_late k (omega arith) was
  later attempts attempts' n _ h (retried k message after was many) =
      retried k message (omega arith) was (omega arith)

  round_lem :
      (q : Poll I) (attempts n : ℕ) (rest : Confirmation I)
      → p.poll n ≡ q
      → (late n ≡ false → Explains (attempts_after q attempts) (suc n) rest)
      → Explains attempts n (round q (late n) attempts rest)
  unfolding round
  round_lem (executed info) attempts n rest was next = on_time n info (omega arith) was
  round_lem expired attempts n rest was next = too_late n (omega arith) (inl was)
  round_lem pending attempts n rest was next = elim (Bool-cases (late n)) [
    | inl is_late ↦ rw (is_late) (too_late n (omega arith) (inr is_late))
    | inr early ↦ rw (early) (later attempts attempts n rest (omega arith) (next early))
  ]
  round_lem (error message) attempts n rest was next =
      elim (Bool-cases (leb max_retries attempts)) [
        | inl most ↦ rw (most) (retried n message (omega arith) was (ground arith))
        | inr fewer ↦ elim (Bool-cases (late n)) [
          | inl is_late ↦ rw (fewer, is_late) (too_late n (omega arith) (inr is_late))
          | inr early ↦
              rw (fewer, early) (later attempts (suc attempts) n rest (omega arith) (next early))
        ]
      ]

  wait_from_lem :
      (fuel n attempts : ℕ)
      → timeout ≤ 400 * (n + fuel)
      → Explains attempts n (wait_from (suc fuel) n attempts)
  unfolding wait_from
  wait_from_lem zero n attempts h =
      round_lem (p.poll n) attempts n unfinished refl
        (λ early. absurd (let by = ended_by n in ground arith))
  wait_from_lem (suc fuel) n attempts h =
      round_lem (p.poll n) attempts n _ refl
        (λ early. wait_from_lem fuel (suc n) (attempts_after (p.poll n) attempts) (omega arith))

  -- waitForConfirmation ends, if each round takes the 400 milliseconds that it sleeps. Where it
  -- returns an information, one of its calls returned it; where it times out, a call was past the
  -- deadline, or ended when the time was up; and where it gives up, its message is that of a call
  -- that failed, with as many calls before it as there are retries, or more.
  pub wait_for_confirmation_lem : Explains 0 0 wait_for_confirmation
  unfolding wait_for_confirmation
  wait_for_confirmation_lem = wait_from_lem timeout 0 0 (omega arith)
