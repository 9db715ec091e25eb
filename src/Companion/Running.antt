-- ===== src/Companion/Running.antt =====
-- The command run of the companion (companion/main.go, cmdRun): from the opening of the archive over
-- the stream to its closing.
use pgvolvra.Base.{
  ℕ, true, false, Option, none, some, [], Bytes, List, is_empty, ltb, if◌then◌else◌,
}
use pgvolvra.Exec.{
  Exec, Outcome, ok, err, query, connect, missing_dsn, missing_archive, ◌>>=◌, ◌>>◌, pure, gets,
  attempted,
}
use pgvolvra.Format.{Platform}
use pgvolvra.World.{World, touch}
use pgvolvra.Remote.{Remote}
use pgvolvra.Remote.Making.{RemoteOptions, Provider, new_remote}
use pgvolvra.Archive.{Archive, Sys, in_world, use_remote, resume_lsn}
use pgvolvra.Archive.Upload.{push_remote}
use pgvolvra.Archive.Writer.{close}
use pgvolvra.Archive.Opening.{open_archive}
use pgvolvra.Feed.Run.{SlotState, ensure_slot, Turn, Streaming, run}
use pgvolvra.Guard.{SlotGuard}

-- The options of `run`.
pub record Options : Type 0 where
  pub dsn : Bytes
  pub dir : Bytes
  pub slot : Bytes
  pub publication : Bytes
  pub segment_bytes : ℕ
  pub lag_warn : ℕ
  pub lag_max : ℕ
  pub bucket : RemoteOptions

-- What is outside: the provider of the bucket, the slot, the primary keys, the turns.
pub record Outside : Type 0 where
  pub provider : Provider
  pub slot_state : SlotState
  pub pk_columns : ℕ → List Bytes
  pub turns : List Turn

abbrev pub attached : Outcome Remote → Outcome (Option Remote)
attached (err e) = err e
attached (ok r) = ok (some r)

-- `openSource`, the bucket's client if one was asked for; what it announces is left out.
unfoldable pub open_source : Bytes → RemoteOptions → Provider → Outcome (Option Remote)
unfolding new_remote
open_source dir o q =
    if is_empty o.bucket
    then (if is_empty dir then err missing_archive else ok none)
    else attached (new_remote o q)

-- The guard that `run` makes.
abbrev pub guard_of : Options → SlotGuard
guard_of o = record { warn_bytes = o.lag_warn; max_bytes = o.lag_max; has_on_gap = true }

-- A streamer that was just made.
abbrev pub new_stream : Sys → Streaming
new_stream s = record {
  feed = record {
    sys = s;
    skip_to = 0;
    rels = [];
    commit_ts = 0;
    xid = 0;
    changes = 0;
    skipped = 0;
  };
  warned = false;
  acked = 0;
  next_status = 0;
  acked_all = [];
  advanced_all = [];
}

module _ (p : Platform) where
  -- With a bucket, what a previous run left is uploaded; a failure is only logged.
  abbrev pub attach : Option Remote → Exec Sys (Unit {0})
  attach none = pure tt
  attach (some r) = use_remote r >> attempted (push_remote p false) >> pure tt

  -- The two connections of `NewStreamer`
  unfoldable pub connect_twice : Exec Sys (Unit {0})
  connect_twice = in_world (touch connect) >> in_world (touch connect)

  abbrev pub later_of : ℕ → Option ℕ → ℕ
  later_of start none = start
  later_of start (some pos) = if ltb start pos then pos else start

  -- Where the stream starts: behind what the slot has confirmed, if the archive has more.
  unfoldable pub start_position : SlotState → Exec Sys ℕ
  unfolding ensure_slot
  start_position slot = do
    start ← ensure_slot p slot
    a ← gets (λ s. s.arch)
    pure (later_of start (p.parse_lsn (resume_lsn a)))

  -- What object storage will do is recorded in the database; a failure is only logged.
  abbrev pub report_lock : Option Remote → Exec Sys (Unit {0})
  report_lock none = pure tt
  report_lock (some r) =
      if r.lock.enabled then attempted (in_world (touch query)) >> pure tt else pure tt

  -- Up to the start of the stream: the position that it starts from.
  unfoldable pub prepare : Option Remote → SlotState → Exec Sys ℕ
  unfolding connect_twice start_position
  prepare r slot = do
    attach r
    connect_twice
    start ← start_position slot
    report_lock r
    pure start

  module _ (o : Options) (out : Outside) where
    -- The stream, from the position, and what it has acknowledged in the end.
    abbrev pub stream_from : ℕ → Sys → Outcome (Unit {0}) × Streaming
    stream_from start s = run p out.pk_columns (some (guard_of o)) start out.turns (new_stream s)

    -- The archive is closed whatever the stream answered; the first error is returned.
    abbrev pub first_error : Outcome (Unit {0}) → Outcome (Unit {0}) → Outcome (Unit {0})
    first_error (err e) closed = err e
    first_error (ok _) closed = closed

    abbrev pub closing : Outcome (Unit {0}) × Streaming → Outcome (Unit {0}) × Streaming
    closing (r, st) =
        let (c, s) = close p st.feed.sys in
        (first_error r c, record st { feed = record st.feed { sys = s } })

    -- The deferred closing, whose error is dropped.
    abbrev pub closed_again : Outcome (Unit {0}) × Streaming → Outcome (Unit {0}) × Streaming
    closed_again (r, st) =
        (r, record st { feed = record st.feed { sys = (close p st.feed.sys).1 } })

    abbrev pub streamed : Outcome ℕ × Sys → Outcome (Unit {0}) × Streaming
    streamed (err e, s) = (err e, new_stream s)
    streamed (ok start, s) = closing (stream_from start s)

    abbrev pub with_source : Outcome (Option Remote) → Sys → Outcome (Unit {0}) × Streaming
    with_source (err e) s = (err e, new_stream s)
    with_source (ok r) s = streamed (prepare r out.slot_state s)

    -- From the opened archive on.
    unfoldable pub run_archive : Sys → Outcome (Unit {0}) × Streaming
    unfolding prepare open_source
    run_archive s = closed_again (with_source (open_source o.dir o.bucket out.provider) s)

    abbrev pub opened_run : Outcome Archive × World → Outcome (Unit {0}) × Option Streaming
    opened_run (err e, w) = (err e, none)
    opened_run (ok a, w) =
        let (r, st) = run_archive (record { arch = a; world = w }) in (r, some st)

    -- `cmdRun`: the stream's state in the end, where there was an archive.
    unfoldable pub cmd_run : World → Outcome (Unit {0}) × Option Streaming
    unfolding run_archive
    cmd_run w =
        if is_empty o.dsn
        then (err missing_dsn, none)
        else if is_empty o.dir
        then (err missing_archive, none)
        else opened_run (open_archive p o.slot o.publication o.segment_bytes w)
