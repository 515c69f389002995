-- ===== src/Fetcher/Retry/Attempts.antt =====
-- How many requests `fetch_one` makes, and which reply decides its result.
use mathlib.Core.Path.{subst}
use webspider.Prelude.{
  ℕ, zero, suc, ◌+◌, ◌==◌, sym, ◌≤◌, ◌<◌, ◌≡◌, ◌≢◌, refl, arith, Text, Bool-cases, List, [], ◌∷◌,
  ◌++◌, Option, none, some, inl, inr, leb, leb→le,
}
use webspider.Outcome.{Error, value_error, overflow_error, Outcome, ok, raise}
use webspider.Dedupe.{pos, negsuc}
use webspider.Fetcher.Retry.{
  Seconds, finite, infinite, nan, Reply, request_exception, response, Step, acquire, acquire_host,
  get, backoff, sleep, penalise_all, penalise_host, FetchResult, text, failed, gone, Fetching,
  Handled, settled, retry, throttled, sleep_on, sleep_error, if_host, handle_reply, ask, after,
  attempts, fetch_one,
}

-- The requests among the steps.
unfoldable pub requests : List Step → ℕ
requests [] = 0
requests (get ∷ steps) = suc (requests steps)
requests (_ ∷ steps) = requests steps

-- The seconds that `time.sleep` refuses, with its exception.
pub data Unsleepable (cfg : Fetching) : Seconds → Error → Type 0 where
  negative : {n : ℕ} → Unsleepable cfg (finite (negsuc n)) value_error
  too_long : {n : ℕ} → cfg.longest_sleep < n → Unsleepable cfg (finite (pos n)) overflow_error
  endless : Unsleepable cfg infinite overflow_error
  no_number : Unsleepable cfg nan value_error

-- The replies after which there is another attempt: no response, a 429 without a Retry-After or
-- with one that can be slept for, a 403, and the statuses from 500 on.
pub data IsTransient (cfg : Fetching) : Reply → Type 0 where
  no_response : IsTransient cfg request_exception
  too_many : {body : Text} → IsTransient cfg (response 429 body none)
  too_many_for :
      {body : Text} {n : ℕ}
      → n ≤ cfg.longest_sleep
      → IsTransient cfg (response 429 body (some (finite (pos n))))
  blocked : {body : Text} {ra : Option Seconds} → IsTransient cfg (response 403 body ra)
  server_error :
      {status : ℕ} {body : Text} {ra : Option Seconds}
      → 500 ≤ status
      → IsTransient cfg (response status body ra)

-- The replies that decide, with the outcome: the text of a 200, a page that is gone for good for a
-- 404 or a 410, the exception of the sleep for a 429 with a Retry-After that `time.sleep` refuses,
-- and None for any other status.
pub data Decides (cfg : Fetching) : Reply → Outcome FetchResult → Type 0 where
  fetched :
      {body : Text} {ra : Option Seconds} → Decides cfg (response 200 body ra) (ok (text body))
  not_found :
      {body : Text} {ra : Option Seconds} → Decides cfg (response 404 body ra) (ok (gone 404))
  removed : {body : Text} {ra : Option Seconds} → Decides cfg (response 410 body ra) (ok (gone 410))
  unslept :
      {body : Text} {ra : Seconds} {e : Error}
      → Unsleepable cfg ra e
      → Decides cfg (response 429 body (some ra)) (raise e)
  other :
      {status : ℕ} {body : Text} {ra : Option Seconds}
      → status ≢ 200
      → status ≢ 403
      → status ≢ 404
      → status ≢ 410
      → status ≢ 429
      → status < 500
      → Decides cfg (response status body ra) (ok failed)

-- How the attempts from `attempt` on end, with `n` left, after `k` requests: the first reply that
-- is not transient decides, and where there is none the page has failed.
pub data Ends (cfg : Fetching) (replies : ℕ → Reply)
    : ℕ → ℕ → ℕ → Outcome FetchResult → Type 0 where
  exhausted : {attempt : ℕ} → Ends cfg replies zero attempt 0 (ok failed)
  decided :
      {n attempt : ℕ} {r : Outcome FetchResult}
      → Decides cfg (replies attempt) r
      → Ends cfg replies (suc n) attempt 1 r
  retried :
      {n attempt k : ℕ} {r : Outcome FetchResult}
      → IsTransient cfg (replies attempt)
      → Ends cfg replies n (suc attempt) k r
      → Ends cfg replies (suc n) attempt (suc k) r

requests-append : (s t : List Step) → requests (s ++ t) ≡ requests s + requests t
unfolding requests
requests-append [] t = omega arith
requests-append (get ∷ s) t = omega (arith, requests-append s t)
requests-append (acquire ∷ s) t = requests-append s t
requests-append (acquire_host ∷ s) t = requests-append s t
requests-append (backoff n ∷ s) t = requests-append s t
requests-append (sleep n ∷ s) t = requests-append s t
requests-append (penalise_all n ∷ s) t = requests-append s t
requests-append (penalise_host n ∷ s) t = requests-append s t

requests-ask : (cfg : Fetching) → requests (ask cfg) ≡ 1
unfolding requests ask
requests-ask cfg = elim (Bool-cases cfg.has_host) [ inl e ↦ rw e refl | inr e ↦ rw e refl ]

-- What is made of a reply fits its kind, and takes no request.
Fits : Fetching → Reply → Handled → Type 0
Fits cfg reply (settled steps r) = Decides cfg reply r × (requests steps ≡ 0)
Fits cfg reply (retry steps) = IsTransient cfg reply × (requests steps ≡ 0)

throttled-Fits :
    (cfg : Fetching) (attempt : ℕ) (body : Text) (ra : Option Seconds)
    → Fits cfg (response 429 body ra) (throttled cfg attempt ra)
unfolding Fits throttled sleep_on sleep_error requests
throttled-Fits cfg attempt body none = (too_many, refl)
throttled-Fits cfg attempt body (some (finite (pos n))) =
    elim (Bool-cases (leb n cfg.longest_sleep)) [
      | inl e ↦ rw e (too_many_for (leb→le n cfg.longest_sleep e), refl)
      | inr e ↦ rw e (unslept (too_long (ground arith)), refl)
    ]
throttled-Fits cfg attempt body (some (finite (negsuc n))) = (unslept negative, refl)
throttled-Fits cfg attempt body (some infinite) = (unslept endless, refl)
throttled-Fits cfg attempt body (some nan) = (unslept no_number, refl)

requests-if_host :
    (cfg : Fetching) (n : ℕ) → requests (if_host cfg (penalise_host n) (sleep 2 ∷ [])) ≡ 0
unfolding if_host requests
requests-if_host cfg n = elim (Bool-cases cfg.has_host) [ inl e ↦ rw e refl | inr e ↦ rw e refl ]

handle_reply-Fits :
    (cfg : Fetching) (attempt : ℕ) (reply : Reply) → Fits cfg reply (handle_reply cfg attempt reply)
unfolding handle_reply Fits requests
handle_reply-Fits cfg attempt request_exception = (no_response, refl)
handle_reply-Fits cfg attempt (response status body ra) = elim (Bool-cases (status == 200)) [
  | inl e ↦
      let same : status ≡ 200 = ground arith in
      rw e (subst (λ s. Decides cfg (response s body ra) (ok (text body))) (sym same) fetched, refl)
  | inr e200 ↦ elim (Bool-cases (status == 404)) [
    | inl e ↦
        let same : status ≡ 404 = ground arith in
        rw (e200, e)
          (subst (λ s. Decides cfg (response s body ra) (ok (gone s))) (sym same) not_found, refl)
    | inr e404 ↦ elim (Bool-cases (status == 410)) [
      | inl e ↦
          let same : status ≡ 410 = ground arith in
          rw (e200, e404, e)
            (subst (λ s. Decides cfg (response s body ra) (ok (gone s))) (sym same) removed, refl)
      | inr e410 ↦ elim (Bool-cases (status == 429)) [
        | inl e ↦
            let same : status ≡ 429 = ground arith in
            rw (e200, e404, e410, e)
              (subst (λ s. Fits cfg (response s body ra) (throttled cfg attempt ra)) (sym same)
                (throttled-Fits cfg attempt body ra))
        | inr e429 ↦ elim (Bool-cases (status == 403)) [
          | inl e ↦
              let same : status ≡ 403 = ground arith in
              rw (e200, e404, e410, e429, e)
                (
                  subst (λ s. IsTransient cfg (response s body ra)) (sym same) blocked,
                  requests-if_host cfg _,
                )
          | inr e403 ↦ elim (Bool-cases (leb 500 status)) [
            | inl e ↦
                rw (e200, e404, e410, e429, e403, e) (server_error (leb→le 500 status e), refl)
            | inr e ↦
                rw (e200, e404, e410, e429, e403, e)
                  (
                    other (ground arith) (ground arith) (ground arith) (ground arith) (ground arith)
                        (ground arith),
                    refl,
                  )
          ]
        ]
      ]
    ]
  ]
]

after-Ends :
    (cfg : Fetching) (replies : ℕ → Reply) (n attempt : ℕ) (rest : Outcome FetchResult × List Step)
    (h : Handled)
    → Fits cfg (replies attempt) h
    → Ends cfg replies n (suc attempt) (requests rest.1) rest.0
    → Ends cfg replies
        (suc n)
        attempt
        (requests (after (ask cfg) h rest).1)
        (after (ask cfg) h rest).0
unfolding after Fits
after-Ends cfg replies n attempt (r, later) (settled more r') (decides, quiet) ends =
    rw (requests-append (ask cfg) more, requests-ask cfg, quiet) (decided decides)
after-Ends cfg replies n attempt (r, later) (retry more) (transient, quiet) ends =
    rw
      (
        requests-append (ask cfg) (more ++ later),
        requests-append more later,
        requests-ask cfg,
        quiet,
      )
      (subst (λ (k : ℕ). Ends cfg replies (suc n) attempt k r) (omega arith)
        (retried transient ends))

attempts-Ends :
    (cfg : Fetching) (replies : ℕ → Reply) (n attempt : ℕ)
    → Ends cfg replies n attempt
        (requests (attempts cfg replies n attempt).1)
        (attempts cfg replies n attempt).0
unfolding attempts requests
attempts-Ends cfg replies zero attempt = exhausted
attempts-Ends cfg replies (suc n) attempt =
    after-Ends cfg replies n attempt (attempts cfg replies n (suc attempt))
      (handle_reply cfg attempt (replies attempt)) (handle_reply-Fits cfg attempt (replies attempt))
      (attempts-Ends cfg replies n (suc attempt))

-- The first reply that is not transient decides the outcome of `fetch_one`, with one request for it
-- and one for each reply before it: a 200 its text, a 404 or a 410 that the page is gone for good, a
-- 429 whose Retry-After `time.sleep` refuses (negative, not a number, or too long) its exception, and
-- a status other than 403, 429 and those from 500 on None. If all of the `retries + 1` replies are
-- transient, the result is None after as many requests.
pub fetch_one-Ends :
    (cfg : Fetching) (replies : ℕ → Reply)
    → Ends cfg replies
        (suc cfg.retries)
        0
        (requests (fetch_one cfg replies).1)
        (fetch_one cfg replies).0
unfolding fetch_one
fetch_one-Ends cfg replies = attempts-Ends cfg replies (suc cfg.retries) 0

Ends-le :
    {cfg : Fetching} {replies : ℕ → Reply} {n attempt k : ℕ} {r : Outcome FetchResult}
    → Ends cfg replies n attempt k r
    → k ≤ n
Ends-le exhausted = omega arith
Ends-le (decided e) = omega arith
Ends-le (retried e ends) = omega (arith, Ends-le ends)

-- `fetch_one` makes at most `retries + 1` requests, whatever the server replies.
pub requests-fetch_one :
    (cfg : Fetching) (replies : ℕ → Reply) → requests (fetch_one cfg replies).1 ≤ suc cfg.retries
requests-fetch_one cfg replies = Ends-le (fetch_one-Ends cfg replies)
