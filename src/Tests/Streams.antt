-- ===== src/Tests/Streams.antt =====
-- The theorems on the loop of the stream and on a run of the companion at concrete turns.
use pgvolvra.Base.{refl, inr, Option, true, false, ℕ, none, some, List, [], ◌∷◌, Bytes, codes}
use pgvolvra.Exec.Laws.{After}
use pgvolvra.Feed.{Message, relation_message, insert_message, text_column}
use pgvolvra.Feed.Run.{Turn, Streaming, timed_out, keepalive, xlog_data, run}
use pgvolvra.Feed.Loop.{Going, Stuck, run-Accounted}
use pgvolvra.Guard.{SlotGuard}
use pgvolvra.Companion.Running.{Options, Outside, cmd_run}
use pgvolvra.Companion.Acknowledged.{Answered, cmd_run-Answers}
use pgvolvra.Tests.Toy.{toy, toy-IsFaithful}
use pgvolvra.Tests.States.{disk, history, open_state, open_state-Durable, world-IsHonest}

abbrev described : Message
described = relation_message 7 (codes "public") (codes "t") (codes "id" ∷ [])

abbrev inserted : Message
inserted = insert_message 7 (some (text_column (codes "1") ∷ []))

abbrev turn_of : Option (ℕ × Option Message) → Turn
turn_of m = record {
  cancelled = false;
  slot_row = some (record { retained = some 100; current = 42 ∷ [] });
  received = xlog_data m;
}

abbrev turns : List Turn
turns =
    turn_of (some (8, some described))
    ∷ turn_of (some (9, some inserted))
    ∷ record { cancelled = false; slot_row = none; received = keepalive (some true) }
    ∷ record { cancelled = true; slot_row = none; received = timed_out }
    ∷ []

abbrev guard : SlotGuard
guard = record { warn_bytes = 20; max_bytes = 50; has_on_gap = true }

abbrev streaming : Streaming
streaming = record {
  feed = record {
    sys = open_state;
    skip_to = 0;
    rels = [];
    commit_ts = 0;
    xid = 0;
    changes = 0;
    skipped = 0;
  };
  warned = false;
  acked = 0;
  next_status = 0;
  acked_all = [];
  advanced_all = [];
}

abbrev keys : ℕ → List Bytes
keys n = codes "id" ∷ []

run-Accounted_example :
    After
      (λ _. Going toy toy-IsFaithful 5 history)
      (Stuck toy toy-IsFaithful 5 history)
      (run toy keys (some guard) 5 turns streaming)
run-Accounted_example =
    run-Accounted toy toy-IsFaithful 5 history keys (some guard) turns streaming open_state-Durable

abbrev options : Options
options = record {
  dsn = codes "postgres://";
  dir = codes "archive";
  slot = codes "volvra";
  publication = codes "volvra";
  segment_bytes = 1000;
  lag_warn = 20;
  lag_max = 50;
  bucket = record {
    endpoint = codes "s3.example.com:9000";
    bucket = codes "archive";
    prefix = codes "/volvra/";
    region = codes "us-east-1";
    insecure = false;
    checksum = codes "auto";
  };
}

abbrev outside : Outside
outside = record {
  provider = record {
    accepts = true;
    exists = some true;
    lock_mode = some (codes "GOVERNANCE");
    validity = some 30;
    in_years = false;
  };
  slot_state = record { confirmed = some (4 ∷ []); consistent_point = [] };
  pk_columns = keys;
  turns = turns;
}

cmd_run-Answers_example :
    Answered toy toy-IsFaithful options outside history []
      (disk [])
      (cmd_run toy options outside open_state.world)
cmd_run-Answers_example =
    cmd_run-Answers toy toy-IsFaithful options outside history [] (disk [])
      (inr (open_state.arch, (open_state-Durable.0, open_state-Durable.1))) open_state.world
      (record { bucket_is = refl; disk_is = refl; honest = world-IsHonest (disk []) [] })
