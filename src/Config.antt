-- ===== src/Config.antt =====
-- oceanraft/src/config.rs: the configuration of a node, and its validation.
mod Tests
use oceanraft.Common.{ℕ, ◌*◌, Bool, true, false, leb, ◌==◌, if◌then◌else◌, Outcome, ok, err}
use oceanraft.Types.Errors.{Error}

pub record Config : Type 0 where
  pub node_id : ℕ
  pub election_tick : ℕ
  pub heartbeat_tick : ℕ
  pub tick_interval : ℕ
  pub max_batch_apply_msgs : ℕ
  pub replica_sync : Bool
  pub max_size_per_msg : ℕ
  pub max_inflight_msgs : ℕ
  pub batch_append : Bool
  pub batch_apply : Bool
  pub batch_size : ℕ
  pub event_capacity : ℕ
  pub proposal_queue_size : ℕ

abbrev pub heartbeat_tick : ℕ
heartbeat_tick = 2

-- `Default`
abbrev pub default_config : Config
default_config = record {
  node_id = 0;
  event_capacity = 1;
  election_tick = heartbeat_tick * 10;
  heartbeat_tick = heartbeat_tick;
  tick_interval = 10;
  max_batch_apply_msgs = 1;
  max_size_per_msg = 1024 * 1024;
  max_inflight_msgs = 256;
  batch_append = false;
  batch_apply = false;
  batch_size = 0;
  replica_sync = true;
  proposal_queue_size = 1;
}

unfoldable pub validate : Config → Outcome Error (Unit {0})
validate cfg =
    if cfg.node_id == 0
    then err (Error.config_invalid "invalid node id")
    else if cfg.heartbeat_tick == 0
    then err (Error.config_invalid "heartbeat tick must greater than 0")
    else if leb cfg.election_tick cfg.heartbeat_tick
    then err (Error.config_invalid "election tick must be greater than heartbeat tick")
    else if cfg.tick_interval == 0
    then err (Error.config_invalid "tick interval must be greater than 0")
    else if cfg.max_batch_apply_msgs == 0
    then err (Error.config_invalid "max batch apply msgs must be greater than 0")
    else if cfg.max_inflight_msgs == 0
    then err (Error.config_invalid "max inflight messages must be greater than 0")
    else if cfg.proposal_queue_size == 0
    then err (Error.config_invalid "write queue size must be greater than 0")
    else ok tt
