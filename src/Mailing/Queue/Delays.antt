-- ===== src/Mailing/Queue/Delays.antt =====
-- The delays of retries, src/runtime/mailing/queue.ts.
use native.Mathlib.Omega.{pow_step}
use blackcat_darkmesh_gatewa.Mailing.Queue.{
  get_mail_retry_delay_ms, default_retry_backoff_ms, capped_backoff,
}
use blackcat_darkmesh_gatewa.Base.{
  ℕ, zero, suc, ◌+◌, ◌*◌, ◌^◌, ◌<◌, min, ◌≡◌, Option, arith, or_else,
}

double : (b n : ℕ) → b * 2 ^ suc n ≡ 2 * (b * 2 ^ n)
double b n = grind (arith, pow_step 2 n)

-- Backoff. With a positive backoff the first attempt waits for it, or for the limit if that is less, and each
-- further attempt waits twice as long as the one before, or the limit.
pub get_mail_retry_delay_ms_lem :
    (retry_backoff_ms limit : Option ℕ) (attempt : ℕ)
    → 0 < or_else retry_backoff_ms default_retry_backoff_ms
    → 0 < attempt
    → (get_mail_retry_delay_ms retry_backoff_ms 1 limit
        ≡ min (or_else retry_backoff_ms default_retry_backoff_ms) (capped_backoff limit))
      × (get_mail_retry_delay_ms retry_backoff_ms (attempt + 1) limit
          ≡ min (2 * get_mail_retry_delay_ms retry_backoff_ms attempt limit) (capped_backoff limit))
unfolding get_mail_retry_delay_ms
get_mail_retry_delay_ms_lem retry_backoff_ms limit zero positive counted = absurd (omega arith)
get_mail_retry_delay_ms_lem retry_backoff_ms limit (suc n) positive counted =
    (ground arith, ground (arith, double (or_else retry_backoff_ms default_retry_backoff_ms) n))
