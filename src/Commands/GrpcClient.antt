-- ===== src/Commands/GrpcClient.antt =====
-- GrpcClient.h: which calls are started.
use codon.Prelude.{
  ℕ, suc, ◌+◌, ◌%◌, ◌^◌, ◌<◌, ◌≡◌, ◌⊎◌, inl, inr, Bool, true, false, not, ◌||◌, List, ◌∷◌, leb,
  arith, Bool-cases, if◌then◌else◌,
}
use native.Mathlib.Nat.{mod-eq_of_lt}

-- `stub` is whether there is one; a call in flight is its tag.
pub record GrpcClient : Type 0 where
  pub stub : Bool
  pub last_tag : ℕ
  pub outstanding_calls : List ℕ
  pub metric_count_started : ℕ
  pub metric_count_skipped : ℕ
  pub metric_count_outstanding : ℕ

-- `++` of a UINT64
abbrev pub tick_64 : ℕ → ℕ
tick_64 n = (n + 1) % 2 ^ 64

abbrev pub start_call : GrpcClient → GrpcClient
start_call c = record c {
  last_tag = tick_64 c.last_tag;
  outstanding_calls = tick_64 c.last_tag ∷ c.outstanding_calls;
  metric_count_started = tick_64 c.metric_count_started;
  metric_count_outstanding = tick_64 c.metric_count_outstanding;
}

-- The Boolean arguments are whether there is a callback, whether the factory would give a stub, and
-- whether the method gives a call.
unfoldable pub async : ℕ → Bool → Bool → Bool → GrpcClient → Bool × GrpcClient
async max_outstanding_calls callback new_stub rpc c =
    let d = record c { stub = c.stub || new_stub } in
    if not callback
    then (false, c)
    else if not d.stub
    then (false, d)
    else if leb max_outstanding_calls d.metric_count_outstanding
    then (true, record d { metric_count_skipped = tick_64 d.metric_count_skipped })
    else if not rpc
    then (false, d)
    else (true, start_call d)

pub metric_count_outstanding-async :
    (max_outstanding_calls : ℕ) (callback new_stub rpc : Bool) (c : GrpcClient)
    → max_outstanding_calls < 2 ^ 64
    → ((async max_outstanding_calls callback new_stub rpc c).1.metric_count_outstanding
        ≡ suc c.metric_count_outstanding)
      ⊎ ((async max_outstanding_calls callback new_stub rpc c).1.metric_count_outstanding
          ≡ c.metric_count_outstanding)
unfolding async
metric_count_outstanding-async m callback new_stub rpc c fits =
    let n = c.metric_count_outstanding in
    elim (Bool-cases (not callback || not (c.stub || new_stub) || leb m n || not rpc)) [
      | inl skipped ↦ inr (ground arith)
      | inr begun ↦
          let count : tick_64 n ≡ n + 1 = mod-eq_of_lt (ground arith) in inl (ground (arith, count))
    ]
