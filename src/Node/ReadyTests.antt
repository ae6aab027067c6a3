-- ===== src/Node/ReadyTests.antt =====
-- A run of `handle_ready` of oceanraft/src/group.rs over the memory storage.
use oceanraft.Common.{ℕ, ◌+◌, false, List, [], ◌∷◌, Option, none, some, Outcome, ok}
use oceanraft.Types.{Entry, entry_normal, default_metadata}
use oceanraft.Types.Errors.{StorageError}
use oceanraft.Storage.Mem.{MemStorageCore}
use oceanraft.Proposal.Reads.{ReadIndexContext}
use oceanraft.Common.{Bool}
use oceanraft.Replica.Memory.{memory}
use oceanraft.Node.Ready.{RaftReady, Turn, handle_ready}
use oceanraft.Node.Readied.{Readied, handle_ready-Readied}
use oceanraft.Common.{refl, true}
use oceanraft.Node.State.{NodeWorker, activate}
use oceanraft.Node.Round.{Round, collect_readys}
use oceanraft.Node.Rounds.{Elsewhere, collect_readys-Elsewhere}
use oceanraft.Node.Tests.{raw}
use oceanraft.Node.RequestTests.{Memory, starts, node, observer, elected}

abbrev committed : Entry
committed = record {
  entry_type = entry_normal;
  term = 2;
  index = 4;
  payload = 1 ∷ [];
  context = [];
  sync_log = false;
}

-- Raft reports a leader, and commits an entry.
abbrev ready : ℕ → RaftReady × ℕ
ready n = (
  record {
    messages = [];
    ss = some elected;
    read_states = [];
    committed_entries = committed ∷ [];
    rest = record {
      snapshot = record { payload = []; metadata = default_metadata };
      entries = [];
      hs = none;
      persisted_messages = [];
    };
  },
  n + 1,
)

abbrev raft_id : ℕ → ℕ
raft_id n = 3

abbrev log_term : MemStorageCore Bool → ℕ → Outcome StorageError ℕ
log_term log index = ok 2

abbrev size : Entry → ℕ
size e = 1

abbrev decode : List ℕ → Option ReadIndexContext
decode bytes = none

abbrev turn : Turn Memory ℕ
turn = record { observer = observer; node_manager = []; sent = []; answers = []; told = [] }

handle_ready-Readied_example :
    Readied raft_id ready log_term turn
      (handle_ready memory starts raw raft_id ready log_term size decode 1 turn)
handle_ready-Readied_example =
    handle_ready-Readied memory starts raw raft_id ready log_term size decode 1 turn

abbrev has_ready : ℕ → Bool
has_ready n = true

-- Group 7 is active, group 9 is not.
abbrev running : NodeWorker Memory ℕ
running = activate 7 node

collect_readys-Elsewhere_example :
    let begun : Round Memory ℕ = record {
      node = running;
      sent = [];
      answers = [];
      told = [];
      writes = [];
      applys = [];
    } in
    Elsewhere 9 begun
      (collect_readys memory starts raw raft_id ready has_ready log_term size decode running)
collect_readys-Elsewhere_example =
    collect_readys-Elsewhere memory starts raw raft_id ready has_ready log_term size decode 9
      running refl
