-- ===== src/Agent/Retry.antt =====
-- sentinel_rtp_cam/src/utils/retry_helper.rs. Durations are nanoseconds; the k-th request's answer
-- is what the caller's closure and reqwest make of it.
use native.Mathlib.Nat.{pow-le-pow_right}
use sentinel_video_receiver.Prelude.{
  ℕ, zero, suc, ◌+◌, ◌-◌, ◌*◌, ◌^◌, min, ◌≤◌, ◌<◌, ◌≡◌, ap, sym, subst, arith, Bool, true, false,
  ◌&&◌, ◌||◌, List, [], ◌∷◌, ltb, leb, ◌==◌, if◌then◌else◌, length, take, Text, text_same,
}

pub record RetryCfg : Type 0 where
  pub max_attempts : ℕ
  pub base_delay : ℕ
  pub max_delay : ℕ

abbrev pub default : RetryCfg
default = record { max_attempts = 5; base_delay = 200000000; max_delay = 3000000000 }

unfoldable pub is_retryable_status : ℕ → Bool
is_retryable_status s = (s == 429) || (leb 500 s && ltb s 600)

-- A `reqwest::Error`, as far as the code asks it.
pub record RequestError : Type 0 where
  pub is_timeout : Bool
  pub is_connect : Bool
  pub is_request : Bool
  pub text : Text

unfoldable pub contains : Text → Text → Bool
contains [] needle = text_same [] needle
contains (c ∷ cs) needle =
    let rest = contains cs needle in
    if text_same (take (length needle) (c ∷ cs)) needle then true else rest

-- "Connection refused", "os error 61" and "connection reset".
abbrev refused : Text
refused =
    b'C' ∷ b'o' ∷ b'n' ∷ b'n' ∷ b'e' ∷ b'c' ∷ b't' ∷ b'i' ∷ b'o' ∷ b'n' ∷ b' ' ∷ b'r' ∷ b'e' ∷ b'f'
    ∷ b'u' ∷ b's' ∷ b'e' ∷ b'd' ∷ []

abbrev os_error : Text
os_error = b'o' ∷ b's' ∷ b' ' ∷ b'e' ∷ b'r' ∷ b'r' ∷ b'o' ∷ b'r' ∷ b' ' ∷ b'6' ∷ b'1' ∷ []

abbrev connection_reset : Text
connection_reset =
    b'c' ∷ b'o' ∷ b'n' ∷ b'n' ∷ b'e' ∷ b'c' ∷ b't' ∷ b'i' ∷ b'o' ∷ b'n' ∷ b' ' ∷ b'r' ∷ b'e' ∷ b's'
    ∷ b'e' ∷ b't' ∷ []

unfoldable pub is_retryable_reqwest_err : RequestError → Bool
is_retryable_reqwest_err e =
    e.is_timeout
    || (e.is_connect
        || (e.is_request
            || (contains e.text refused
                || (contains e.text os_error || contains e.text connection_reset))))

-- `Duration::MAX`.
abbrev pub duration_max : ℕ
duration_max = (2 ^ 64 - 1) * 1000000000 + 999999999

unfoldable pub exp_backoff : ℕ → ℕ → ℕ → ℕ
exp_backoff attempt base max_delay =
    let mul = min (2 ^ min attempt 20) (2 ^ 64 - 1) in
    let d = min (base * mul) duration_max in if ltb max_delay d then max_delay else d

pub data Answer : Type 0 where
  response : ℕ → Answer
  failure : RequestError → Answer

pub data RetryError : Type 0 where
  retryable_status : ℕ → RetryError
  request : RequestError → RetryError
  after_retries : RetryError

-- A response (its status) or an error.
pub data Returned : Type 0 where
  ok : ℕ → Returned
  err : RetryError → Returned

unfoldable pub is_retryable : Answer → Bool
is_retryable (response status) = is_retryable_status status
is_retryable (failure e) = is_retryable_reqwest_err e

unfoldable pub error_of : Answer → RetryError
error_of (response status) = retryable_status status
error_of (failure e) = request e

unfoldable pub returned : Answer → Returned
returned (response status) = ok status
returned (failure e) = err (request e)

-- The `for`, from an attempt on, with the attempts that are left and `last_err`: the delays slept
-- and what is returned.
unfoldable pub attempts : RetryCfg → (ℕ → Answer) → ℕ → ℕ → RetryError → List ℕ × Returned
attempts cfg send zero attempt last_err = ([], err last_err)
attempts cfg send (suc left) attempt last_err =
    let answer = send attempt in
    let (delays, result) = attempts cfg send left (suc attempt) (error_of answer) in
    if is_retryable answer
    then (exp_backoff attempt cfg.base_delay cfg.max_delay ∷ delays, result)
    else ([], returned answer)

unfoldable pub retry_request : RetryCfg → (ℕ → Answer) → List ℕ × Returned
retry_request cfg send = attempts cfg send cfg.max_attempts 0 after_retries

-- The backoffs of so many attempts from one on.
abbrev pub backoffs : RetryCfg → ℕ → ℕ → List ℕ
backoffs cfg zero attempt = []
backoffs cfg (suc n) attempt =
    exp_backoff attempt cfg.base_delay cfg.max_delay ∷ backoffs cfg n (suc attempt)

-- The answers to so many requests from one on are all retryable.
abbrev pub Retryable : (ℕ → Answer) → ℕ → ℕ → Type 0
Retryable send zero attempt = Unit
Retryable send (suc n) attempt =
    (is_retryable (send attempt) ≡ true) × Retryable send n (suc attempt)

attempts_lem :
    (cfg : RetryCfg) (send : ℕ → Answer) (k left attempt j : ℕ) (last_err : RetryError)
    → attempt + k ≡ j
    → k < left
    → Retryable send k attempt
    → is_retryable (send j) ≡ false
    → attempts cfg send left attempt last_err ≡ (backoffs cfg k attempt, returned (send j))
unfolding attempts
attempts_lem cfg send k zero attempt j last_err q h r e = absurd (omega (arith, h))
attempts_lem cfg send zero (suc left) attempt j last_err q h r e =
    let same_request : attempt ≡ j = omega (arith, q) in ground (arith, same_request, e)
attempts_lem cfg send (suc k) (suc left) attempt j last_err q h (r, rs) e = ground (
  arith,
  r,
  attempts_lem cfg send k left (suc attempt) j (error_of (send attempt)) (omega (arith, q))
      (omega (arith, h)) rs e,
)

exhausted_lem :
    (cfg : RetryCfg) (send : ℕ → Answer) (left attempt j : ℕ) (last_err : RetryError)
    → attempt + left ≡ j
    → Retryable send (suc left) attempt
    → attempts cfg send (suc left) attempt last_err
      ≡ (backoffs cfg (suc left) attempt, err (error_of (send j)))
unfolding attempts
exhausted_lem cfg send zero attempt j last_err q (r, rs) =
    let same_request : attempt ≡ j = omega (arith, q) in ground (arith, same_request, r)
exhausted_lem cfg send (suc left) attempt j last_err q (r, rs) = ground (
  arith,
  r,
  exhausted_lem cfg send left (suc attempt) j (error_of (send attempt)) (omega (arith, q)) rs,
)

-- The requests go on while their answers are retryable: when the first `k` answers are, `k` is below
-- `max_attempts`, and the next answer is not, that one is returned, after the `k` backoffs.
pub retry_request-returned :
    (cfg : RetryCfg) (send : ℕ → Answer) (k : ℕ)
    → k < cfg.max_attempts
    → Retryable send k 0
    → is_retryable (send k) ≡ false
    → retry_request cfg send ≡ (backoffs cfg k 0, returned (send k))
unfolding retry_request
retry_request-returned cfg send k h r e =
    attempts_lem cfg send k cfg.max_attempts 0 k after_retries (omega arith) h r e

-- When the answers to `max_attempts` requests (one or more) are all retryable, no further request is
-- made: what is returned is the error of the last, after one backoff for each.
pub retry_request-exhausted :
    (cfg : RetryCfg) (send : ℕ → Answer) (n : ℕ)
    → cfg.max_attempts ≡ suc n
    → Retryable send cfg.max_attempts 0
    → retry_request cfg send ≡ (backoffs cfg cfg.max_attempts 0, err (error_of (send n)))
unfolding retry_request
retry_request-exhausted cfg send n h r =
    subst
      (λ (m : ℕ).
        Retryable send m 0
        → attempts cfg send m 0 after_retries ≡ (backoffs cfg m 0, err (error_of (send n))))
      (sym h) (λ r. exhausted_lem cfg send n 0 n after_retries (omega arith) r) r

power_lem : (attempt : ℕ) → min (2 ^ min attempt 20) (2 ^ 64 - 1) ≡ 2 ^ min attempt 20
power_lem attempt =
    let small : 2 ^ min attempt 20 ≤ 2 ^ 20 =
      pow-le-pow_right (omega arith) {j = 20} (omega arith) in
    omega (arith, small)

-- A backoff is `base * 2 ^ attempt`, from the twentieth attempt on `base * 2 ^ 20`, and at most the
-- limit; the limit is one that a `Duration` can hold.
pub exp_backoff-min :
    (attempt base max_delay : ℕ)
    → max_delay ≤ duration_max
    → exp_backoff attempt base max_delay ≡ min (base * 2 ^ min attempt 20) max_delay
unfolding exp_backoff
exp_backoff-min attempt base max_delay h =
    let d = base * 2 ^ min attempt 20 in
    let d_lem : base * min (2 ^ min attempt 20) (2 ^ 64 - 1) ≡ d =
      ap (λ (m : ℕ). base * m) (power_lem attempt) in
    ground (arith, d_lem, h)
