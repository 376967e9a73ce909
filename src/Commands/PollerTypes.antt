-- ===== src/Commands/PollerTypes.antt =====
-- GrpcPoller.h: the fields and the configuration of a poller, and its backoff.
use codon.Prelude.{ℕ, ◌+◌, ◌-◌, ◌*◌, ◌/◌, ◌%◌, ◌^◌, Bool, ltb, if◌then◌else◌}
use codon.Prelude.Int.{ℤ, pos, negsuc, ◌+ℤ◌}

-- What the poller asks of code that it does not know: the builder of requests, the client of the
-- calls (`async` and `cancel_all_outstanding`), the callback of its owner, and random numbers: `draw`
-- is `uniform_int_distribution`. `W` is the state of all these, `Q` a request and `A` a response.
pub record Calls (W Q A : Type 0) : Type 0 where
  pub build_request : W → Q × W
  pub async : Q → W → Bool × W
  pub cancel_all_outstanding : W → W
  pub cb : A → W → Bool × W
  pub draw : ℤ → ℤ → W → ℤ × W
  pub jitter : ℤ → ℤ

-- `GrpcPollerConfig`, without what only the client of the calls uses; `jitter` above is the product
-- of a period with `polling_period_jitter`.
pub record PollerConfig : Type 0 where
  pub grpc_polling_period : ℤ
  pub min_delay_between_successful_calls_nanos : ℤ
  pub min_retry_backoff : ℤ
  pub max_retry_backoff : ℤ
  pub randomize_polling_period : Bool
  pub reenable_polling_delay : ℤ
  pub randomize_reenable_polling_delay : Bool
  pub reenable_polling_delay_from_last_success : Bool
  pub randomize_retry_backoff : Bool
  pub start_enabled : Bool
  pub queue_draining_method_is_fifo : Bool

pub record Poller : Type 0 where
  pub config : PollerConfig
  pub next_poll_time : ℤ
  pub last_poll_time : ℤ
  pub last_success_time : ℤ
  pub polling_enabled : Bool
  pub waiting_on_response : Bool
  pub poll_asap_count : ℕ
  pub retry_count : ℕ
  pub polling_period : ℤ
  pub just_enabled_polling : Bool

-- `/ 2ll` rounds toward zero.
abbrev pub half : ℤ → ℤ
half (pos n) = pos (n / 2)
half (negsuc n) = pos 0 +ℤ negsuc ((n + 1) / 2) +ℤ pos 1

-- The conversions between nano_t and UINT64.
abbrev pub unsigned : ℤ → ℕ
unsigned (pos n) = n % 2 ^ 64
unsigned (negsuc n) = 2 ^ 64 - 1 - n % 2 ^ 64

abbrev pub signed : ℕ → ℤ
signed n = if ltb n (2 ^ 63) then pos n else negsuc (2 ^ 64 - 1 - n)

abbrev pub min : ℕ → ℕ → ℕ
min a b = if ltb b a then b else a

-- `nano_t_max / config.min_retry_backoff`; a division by zero is undefined.
abbrev pub largest_multiplier : ℤ → ℕ
largest_multiplier (pos n) = (2 ^ 63 - 1) / n
largest_multiplier (negsuc n) = unsigned (pos 0 +ℤ negsuc ((2 ^ 63 - 1) / (n + 1)) +ℤ pos 1)

unfoldable pub backoff : PollerConfig → ℕ → ℤ
backoff config retry_count =
    let multiplier = min (largest_multiplier config.min_retry_backoff) (2 ^ min retry_count 32) in
    signed (
      min (unsigned config.min_retry_backoff * multiplier % 2 ^ 64)
        (unsigned config.max_retry_backoff))
