-- ===== src/Commands/Sender.antt =====
-- CommandSender: a command is translated, framed and written to the channel of its node.
use codon.Prelude.{ℕ, Bool, true, false, not, Option, none, some, List, [], ◌∷◌, if◌then◌else◌}
use codon.Commands.Client.{tick}

-- What is not in the repository: CommandPayload (`P`), Message (`M`), TimestampFramedMessage (`F`),
-- the identifier of the client's node, names of nodes (`S`), and the channels with their state (`X`).
pub record Transport (S P M F X : Type 0) : Type 0 where
  pub eq : S → S → Bool
  pub write_message : P → Option (M × S)
  pub prepare_transport : M → Option M
  pub frame : M → ℕ → ℕ → Option F
  pub write : ℕ → F → X → Bool × X

-- `relay_channels` maps the names of nodes to channels, which are numbered; the rest are the counters
-- in the slate.
pub record Sender (S : Type 0) : Type 0 where
  pub is_init : Bool
  pub client_node_id : ℕ
  pub relay_channels : List (S × ℕ)
  pub metrics_writes : ℕ
  pub errors_translate_failed : ℕ
  pub errors_invalid_node : ℕ
  pub errors_write_failed : ℕ

module _ {S P M F X : Type 0} (y : Transport S P M F X) where
  open y use {eq, write_message, prepare_transport, frame, write}

  -- `map_find` on `relay_channels`
  unfoldable pub find_channel : S → List (S × ℕ) → Option ℕ
  find_channel alias [] = none
  find_channel alias ((name, channel) ∷ rest) =
      if eq alias name then some channel else find_channel alias rest

  unfoldable pub write_frame : F → S → Sender S → X → Bool × Bool × Sender S × X
  write_frame f alias s w = elim (find_channel alias s.relay_channels) [
    | none ↦ (true, false, record s { errors_invalid_node = tick s.errors_invalid_node }, w)
    | some channel ↦
        let (written, w') = write channel f w in
        if not written
        then (true, false, record s { errors_write_failed = tick s.errors_write_failed }, w')
        else (true, true, record s { metrics_writes = tick s.metrics_writes }, w')
  ]

  -- Whether it succeeds, and whether the command is issued.
  unfoldable pub send : ℕ → P → Sender S → X → Bool × Bool × Sender S × X
  send sequence_number payload s w =
      if not s.is_init then (false, false, s, w) else elim (write_message payload) [
        | none ↦
            (true, false, record s { errors_translate_failed = tick s.errors_translate_failed }, w)
        | some (vehicle_msg, alias) ↦ elim (prepare_transport vehicle_msg) [
          | none ↦ (false, false, s, w)
          | some ready ↦ elim (frame ready s.client_node_id sequence_number) [
            | none ↦ (false, false, s, w)
            | some f ↦ write_frame f alias s w
          ]
        ]
      ]
