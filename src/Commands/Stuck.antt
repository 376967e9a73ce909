-- ===== src/Commands/Stuck.antt =====
-- GrpcPoller.h: a poller whose call was not started.
use codon.Prelude.{ℕ, ◌≡◌, ap, ◌∙◌, true, arith}
use codon.Prelude.Int.{◌+ℤ◌, ◌-ℤ◌}
use codon.Commands.Poller.{
  enable_polling, disable_polling, poll_asap, force_retry, update_grpc_polling_policy,
  dispatch_poller,
}
use codon.Commands.PollerTypes.{Calls, Poller}
use codon.Commands.Outstanding.{
  Counted, PollerStep, on_time, on_answer, on_policy, on_retry, on_asap, on_enable, on_disable,
  PollerRun, idle, and_then,
}

module _ {W Q A : Type 0} (z : Calls W Q A) (outstanding : W → ℕ) (l : Counted z outstanding) where
  open z use {build_request, async, cancel_all_outstanding, cb, draw, jitter}

  -- A poller that waits for a response although no call is outstanding.
  abbrev Stuck : Poller → W → Type 0
  Stuck p w = (p.waiting_on_response ≡ true) × (outstanding w ≡ 0)

  still : {p p' : Poller} {w w' : W} → p' ≡ p → w' ≡ w → Stuck p w → Stuck p' w'
  still e k (waits, none_left) =
      (ap (λ p. p.waiting_on_response) e ∙ waits, ap outstanding k ∙ none_left)

  PollerStep-Stuck :
      (p : Poller) (w : W) (p' : Poller) (w' : W)
      → PollerStep z outstanding p w p' w'
      → Stuck p w
      → Stuck p' w'
  unfolding dispatch_poller update_grpc_polling_policy force_retry poll_asap enable_polling
      disable_polling
  PollerStep-Stuck p w p' w' (on_time t e k) h =
      let same : Stuck (dispatch_poller z t p w).1 (dispatch_poller z t p w).2 =
        (ground (arith, h.0), ground (arith, h.0, h.1)) in
      still e k same
  PollerStep-Stuck p w p' w' (on_answer ok r w1 n e k) (waits, none_left) =
      absurd (omega (arith, n, none_left))
  PollerStep-Stuck p w p' w' (on_policy a b c asap e k) (waits, none_left) =
      let d = l.draw_keeps (a -ℤ jitter a) (a +ℤ jitter a) w in
      still e k (ground (arith, waits), ground (arith, d, none_left))
  PollerStep-Stuck p w p' w' (on_retry e k) (waits, none_left) =
      still e k (waits, l.cancel_keeps w ∙ none_left)
  PollerStep-Stuck p w p' w' (on_asap e k) h = still e k h
  PollerStep-Stuck p w p' w' (on_enable e k) (waits, none_left) =
      still e k (ground (arith, waits), none_left)
  PollerStep-Stuck p w p' w' (on_disable e k) h = still e k h

  -- A poller that waits for a response although no call is outstanding stays so, whatever dispatches,
  -- retries, changes of policy, and switching on and off follow.
  PollerRun-Stuck :
      {p : Poller} {w : W} {p' : Poller} {w' : W}
      → PollerRun z outstanding p w p' w'
      → Stuck p w
      → Stuck p' w'
  PollerRun-Stuck idle h = h
  PollerRun-Stuck (and_then {p' = q} {p'' = q'} {w' = v} {w'' = v'} run step) h =
      PollerStep-Stuck q v q' v' step (PollerRun-Stuck run h)
