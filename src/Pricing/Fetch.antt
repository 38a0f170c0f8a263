-- ===== src/Pricing/Fetch.antt =====
-- `fetch`: the download of a price table with retries. The HTTP client, the context and the timer are
-- an environment that says what becomes of each attempt.
use stint.Prelude.{
  ℕ, zero, suc, ◌+◌, ◌-◌, ◌≤◌, ◌<◌, ◌≡◌, Bool, true, false, not, ◌&&◌, ◌||◌, Option, none, some,
  leb, ltb, ◌==◌, if◌then◌else◌, arith, ◌↔◌,
}
use stint.Prelude.Text.{Str}

pub record Response : Type 0 where
  pub status : ℕ
  -- what `io.ReadAll` returns
  pub body : Option Str

pub record Exchange : Type 0 where
  pub request_ok : Bool
  -- `none` is an error of `client.Do`
  pub response : Option Response
  -- `false` where the context ends before the timer
  pub wait_ok : Bool

pub data Outcome : Type 0 where
  got : Str → Outcome
  failed : Outcome

-- `readPricingResponse`
unfoldable pub read_response : Response → Option Str
read_response r = if r.status == 200 then r.body else none

unfoldable pub is_transient : ℕ → Bool
is_transient status = status == 408 || status == 429 || leb 500 status

-- The body of the loop where the exchange gave no text: go on with `next` or give up.
unfoldable pub retry : ℕ → Bool → Bool → Outcome × ℕ → Outcome × ℕ
retry attempt may wait_ok next =
    if ltb attempt 2 && may
    then (if wait_ok then next else (failed, attempt + 1))
    else (failed, attempt + 1)

after_response : ℕ → Exchange → Option Response → Outcome × ℕ → Outcome × ℕ
unfolding read_response is_transient retry
after_response attempt ex none next = retry attempt true ex.wait_ok next
after_response attempt ex (some r) next = elim (read_response r) [
  | some b ↦ (got b, attempt + 1)
  | none ↦ retry attempt (is_transient r.status) ex.wait_ok next
]

-- The outcome, and the number of attempts made. `left` counts down from three.
attempts : (left attempt : ℕ) → (ℕ → Exchange) → Outcome × ℕ
unfolding after_response
attempts zero attempt env = (failed, attempt)
attempts (suc left) attempt env =
    let ex = env attempt in
    let next = attempts left (attempt + 1) env in
    if not ex.request_ok then (failed, attempt + 1) else after_response attempt ex ex.response next

unfoldable pub fetch : (ℕ → Exchange) → Outcome × ℕ
unfolding attempts
fetch env = attempts 3 0 env

-- The text that an exchange yields.
abbrev text_in : Option Response → Option Str
text_in none = none
text_in (some r) = read_response r

abbrev passing : Option Response → Bool
passing none = true
passing (some r) = is_transient r.status

abbrev is_none {ℓ} : {A : Type ℓ} → Option A → Bool
is_none none = true
is_none (some a) = false

-- An exchange after which another attempt is made: the request was well-formed, there was no text, the
-- failure is one of transport or a transient status, and the wait was not cut short.
unfoldable pub is_retried : Exchange → Bool
is_retried ex = ex.request_ok && is_none (text_in ex.response) && passing ex.response && ex.wait_ok

abbrev outcome_of : Option Str → Outcome
outcome_of none = failed
outcome_of (some b) = got b

-- What an attempt returns if it is the last one.
unfoldable pub last_outcome : Exchange → Outcome
last_outcome ex = if ex.request_ok then outcome_of (text_in ex.response) else failed

attempts_step :
    (left attempt : ℕ) (env : ℕ → Exchange)
    → attempts (suc left) attempt env ≡ (
        if ltb attempt 2 && is_retried (env attempt)
        then attempts left (attempt + 1) env
        else (last_outcome (env attempt), attempt + 1))
unfolding attempts is_retried last_outcome
attempts_step left attempt env = ground arith

-- `fetch` makes one to three attempts. It goes on to the next one exactly while attempts are left and
-- the present one is retried, and its outcome is that of the last attempt.
pub fetch_lem :
    (env : ℕ → Exchange)
    → let (out, n) = fetch env in
      (1 ≤ n)
      × (n ≤ 3)
      × (out ≡ last_outcome (env (n - 1)))
      × ((1 < n) ↔ (is_retried (env 0) ≡ true))
      × (1 < n → (2 < n) ↔ (is_retried (env 1) ≡ true))
unfolding fetch
fetch_lem env =
    rw (attempts_step 2 0 env, attempts_step 1 1 env, attempts_step 0 2 env) (ground arith)
