-- ===== src/Feed/Run.antt =====
-- The loop of the replication stream (companion/stream.go): EnsureSlot, and Run as a sequence of turns.
-- What the outside does in a turn, a message, a timeout, a cancellation, the catalog's answer to the
-- guard, is a parameter; the calls out fail as the world says.
use pgvolvra.Base.{
  ℕ, ◌+◌, ◌*◌, Bool, true, false, Option, none, some, List, [], ◌∷◌, Bytes, ltb, if◌then◌else◌,
}
use pgvolvra.Exec.{
  Exec, receive, query, create_slot, start_replication, failed, bad_lsn, bad_message, panic, ◌>>=◌,
  ◌>>◌, pure, throw, gets, modify, attempted,
}
use pgvolvra.Format.{Platform}
use pgvolvra.World.{touch, now}
use pgvolvra.Archive.{Sys, in_world}
use pgvolvra.Feed.{Message, Feed, in_sys, handle, set_skip_to, report_status}
use pgvolvra.Guard.{SlotGuard, SlotRow, Guarding, check}

-- What `ReceiveMessage` gives until the next status is due. A keepalive says whether a reply is asked
-- for; `none` stands for data that the library's parser refuses.
pub data Received : Type 0 where
  timed_out receive_failed not_copy_data no_data unknown_data : Received
  keepalive : Option Bool → Received
  xlog_data : Option (ℕ × Option Message) → Received

-- One turn of the loop: whether the context is cancelled, the row that the guard's query has, and what
-- is received.
pub record Turn : Type 0 where
  pub cancelled : Bool
  pub slot_row : Option SlotRow
  pub received : Received

-- A status update: the position that it acknowledged, and the archive with the world at that time.
pub record Acked : Type 0 where
  pub position : ℕ
  pub state : Sys

-- The locals of `Run` with the streamer and the guard. `acked_all` are the status updates
-- without an error, `advanced_all` those that the guard moved the slot
-- to; the last one stands first.
pub record Streaming : Type 0 where
  pub feed : Feed
  pub warned : Bool
  pub acked : ℕ
  pub next_status : ℕ
  pub acked_all : List Acked
  pub advanced_all : List ℕ

abbrev pub in_feed : {A : Type 0} → Exec Feed A → Exec Streaming A
in_feed m st = let (r, f) = m st.feed in (r, record st { feed = f })

abbrev pub in_stream : {A : Type 0} → Exec Sys A → Exec Streaming A
in_stream m = in_feed (in_sys m)

abbrev pub added : Option ℕ → List ℕ → List ℕ
added none ns = ns
added (some n) ns = n ∷ ns

-- The streamer and the guard share the archive.
abbrev pub guarded_state : Guarding → Streaming → Streaming
guarded_state g st = record st {
  feed = record st.feed { sys = g.sys };
  warned = g.warned;
  advanced_all = added g.advanced st.advanced_all;
}

abbrev pub in_guard : {A : Type 0} → Exec Guarding A → Exec Streaming A
in_guard m st =
    let (r, g) = m (record { sys = st.feed.sys; warned = st.warned; advanced = none }) in
    (r, guarded_state g st)

-- Five seconds.
abbrev pub status_interval : ℕ
status_interval = 5 * 1000000000

abbrev pub acknowledged : ℕ → Streaming → Streaming
acknowledged pos st = record st {
  acked = pos;
  acked_all = record { position = pos; state = st.feed.sys } ∷ st.acked_all;
}

abbrev pub due_at : ℕ → Exec Streaming (Unit {0})
due_at t = modify (λ st. record st { next_status = t })

-- Where the slot stands: the text of the catalog, NULL or no row as `none`, and what a creation of the
-- slot answers.
pub record SlotState : Type 0 where
  pub confirmed : Option Bytes
  pub consistent_point : Bytes

module _ (p : Platform) where
  abbrev pub parsed_lsn : Option ℕ → Exec Sys ℕ
  parsed_lsn none = throw bad_lsn
  parsed_lsn (some pos) = pure pos

  abbrev pub ensure_found : Bytes → Option Bytes → Exec Sys ℕ
  ensure_found point (some text) = parsed_lsn (p.parse_lsn text)
  ensure_found point none = in_world (touch create_slot) >> parsed_lsn (p.parse_lsn point)

  -- `EnsureSlot`
  unfoldable pub ensure_slot : SlotState → Exec Sys ℕ
  ensure_slot slot = in_world (touch query) >> ensure_found slot.consistent_point slot.confirmed

  -- The position that the archive makes safe, sent to the server and remembered.
  unfoldable pub acknowledge : Exec Streaming ℕ
  acknowledge = do
    acked ← gets (λ st. st.acked)
    pos ← in_stream (report_status p acked)
    modify (acknowledged pos)
    pure pos

  abbrev pub check_guard : Option SlotGuard → Option SlotRow → ℕ → Exec Streaming (Unit {0})
  check_guard none row pos = pure tt
  check_guard (some g) row pos = in_guard (check p g pos row)

  module _ (pk_columns : ℕ → List Bytes) (guard : Option SlotGuard) where
    -- The callback `report` is a statement on the database, whose error is only logged.
    unfoldable pub send_status_now : Option SlotRow → Exec Streaming (Unit {0})
    send_status_now row = do
      pos ← acknowledge
      attempted (in_stream (in_world (touch query)))
      check_guard guard row pos
      t ← in_stream (in_world now)
      due_at (t + status_interval)

    unfoldable pub send_status_if_due : Option SlotRow → Exec Streaming (Unit {0})
    unfolding send_status_now acknowledge
    send_status_if_due row = do
      t ← in_stream (in_world now)
      due ← gets (λ st. ltb st.next_status t)
      if due then send_status_now row else pure tt

    abbrev pub receive_data : Option (ℕ × Option Message) → Exec Feed (Unit {0})
    receive_data none = throw bad_message
    receive_data (some (start, m)) = handle p pk_columns start m

    -- The rest of a turn.
    unfoldable pub take_received : Received → Exec Streaming (Unit {0})
    take_received timed_out = pure tt
    take_received receive_failed = throw (failed receive)
    take_received not_copy_data = pure tt
    take_received no_data = throw panic
    take_received unknown_data = pure tt
    take_received (keepalive none) = throw bad_message
    take_received (keepalive (some false)) = pure tt
    take_received (keepalive (some true)) = in_stream (in_world now) >>= due_at
    take_received (xlog_data d) = in_feed (receive_data d)

    -- The loop of `Run` over the turns. It returns at a cancellation; with no turn left it is still
    -- running.
    unfoldable pub loop : List Turn → Exec Streaming (Unit {0})
    unfolding send_status_if_due take_received
    loop [] = pure tt
    loop (t ∷ ts) =
        if t.cancelled
        then pure tt
        else send_status_if_due t.slot_row >> take_received t.received >> loop ts

    abbrev pub begun : ℕ → Streaming → Streaming
    begun start st = record st { acked = start; acked_all = []; advanced_all = [] }

    -- `Run`
    unfoldable pub run : ℕ → List Turn → Exec Streaming (Unit {0})
    unfolding loop
    run start turns = do
      modify (begun start)
      in_stream (in_world (touch start_replication))
      in_feed (set_skip_to p)
      in_stream (in_world now) >>= due_at
      loop turns
