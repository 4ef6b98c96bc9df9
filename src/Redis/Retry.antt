-- ===== src/Redis/Retry.antt =====
-- RetryWatchTxn of server/redis/redis.go: a transaction that is tried again when a watched key has
-- changed. `client.Watch` on the transaction is the parameter `watch`.
use shadowroller.Common.{ℕ, zero, suc, ◌+◌, ◌<◌, ◌≡◌, ◌≢◌, refl, ap, ◌∙◌, arith}
use shadowroller.Errs.{Err}

-- How one try ends: it went through, a watched key had changed, or another error.
pub data Try : Type 0 where
  committed : Try
  tx_failed : Try
  error : Err → Try

-- How the function ends: nil, the error of a try with its number, or no more tries.
pub data Retried : Type 0 where
  success : Retried
  failed_at : Err → ℕ → Retried
  no_more_retries : Retried

module _ {S : Type 0} (watch : S → Try × S) where
  -- The end of one turn of the loop; `rest` is what the next turns return.
  after_try : Try → ℕ → S → Retried × S → Retried × S
  after_try committed i s rest = (success, s)
  after_try tx_failed i s rest = rest
  after_try (error e) i s rest = (failed_at e (suc i), s)

  -- The loop from its try number `i`, with the number of tries left.
  retry_loop : ℕ → ℕ → S → Retried × S
  unfolding after_try
  retry_loop zero i s = (no_more_retries, s)
  retry_loop (suc left) i s =
      after_try (watch s).0 i (watch s).1 (retry_loop left (suc i) (watch s).1)

  -- The number of tries is `config.RedisRetries`.
  unfoldable pub retry_watch_txn : ℕ → S → Retried × S
  unfolding retry_loop after_try
  retry_watch_txn retries s = retry_loop retries 0 s

  -- The state after a number of tries, and that all of them found a key changed.
  abbrev pub after : ℕ → S → S
  after zero s = s
  after (suc n) s = after n (watch s).1

  abbrev pub AllFailed : ℕ → S → Type 0
  AllFailed zero s = Unit
  AllFailed (suc n) s = ((watch s).0 ≡ tx_failed) × AllFailed n (watch s).1

  -- The result of a try that is not retried.
  abbrev pub outcome : ℕ → Try → Retried
  outcome i committed = success
  outcome i tx_failed = no_more_retries
  outcome i (error e) = failed_at e i

  stop_now :
      (t : Try) (i : ℕ) (x : S) (rest : Retried × S)
      → t ≢ tx_failed
      → after_try t i x rest ≡ (outcome (suc i) t, x)
  unfolding after_try
  stop_now committed i x rest stop = refl
  stop_now tx_failed i x rest stop = absurd (stop refl)
  stop_now (error e) i x rest stop = refl

  loop_stops :
      (k n i : ℕ) (s : S)
      → k < n
      → AllFailed k s
      → (watch (after k s)).0 ≢ tx_failed
      → retry_loop n i s ≡ (outcome (suc (i + k)) (watch (after k s)).0, after (suc k) s)
  unfolding retry_loop after_try
  loop_stops zero zero i s less h stop = absurd (omega arith)
  loop_stops (suc k) zero i s less h stop = absurd (omega arith)
  loop_stops zero (suc n) i s less h stop =
      stop_now (watch s).0 i (watch s).1 (retry_loop n (suc i) (watch s).1) stop
      ∙ ap (λ j. (outcome (suc j) (watch s).0, (watch s).1)) (omega arith)
  loop_stops (suc k) (suc n) i s less (f, h) stop =
      rw (retry_loop, f)
        (loop_stops k n (suc i) (watch s).1 (omega arith) h stop
          ∙ ap (λ j. (outcome (suc j) (watch (after (suc k) s)).0, after (suc (suc k)) s))
              (omega arith))

  loop_fails : (n i : ℕ) (s : S) → AllFailed n s → retry_loop n i s ≡ (no_more_retries, after n s)
  unfolding retry_loop after_try
  loop_fails zero i s h = refl
  loop_fails (suc n) i s (f, h) = rw (retry_loop, f) (loop_fails n (suc i) (watch s).1 h)

  -- The transaction is tried until a try does not find a watched key changed: if that is one of the
  -- tries that are allowed, the function ends with it, with nil or with its error and its number; if
  -- all the tries find a key changed, the function ends after exactly as many, with an error.
  pub retry_watch_txn_lem :
      (retries k : ℕ) (s : S)
      → (k < retries
          → AllFailed k s
          → (watch (after k s)).0 ≢ tx_failed
          → retry_watch_txn retries s ≡ (outcome (suc k) (watch (after k s)).0, after (suc k) s))
        × (AllFailed retries s → retry_watch_txn retries s ≡ (no_more_retries, after retries s))
  unfolding retry_watch_txn
  retry_watch_txn_lem retries k s = (
    (λ less h stop.
        loop_stops k retries 0 s less h stop
        ∙ ap (λ j. (outcome (suc j) (watch (after k s)).0, after (suc k) s)) (omega arith)),
    loop_fails retries 0 s,
  )
