-- ===== src/Feed/Loop.antt =====
-- On the loop of the stream over any sequence of turns (companion/stream.go, Run).
use pgvolvra.Base.{
  ◌∙◌, ℕ, ◌+◌, ◌≤◌, ◌≡◌, refl, sym, subst, ◌⊎◌, inl, inr, true, false, Option, none, some, List, [],
  ◌∷◌, ◌++◌, append-nil, Bytes, ltb, arith,
}
use pgvolvra.Exec.{
  Exec, Outcome, ok, err, Error, query, start_replication, throw, gets, modify, attempted, pure,
  ◌>>=◌, ◌>>◌,
}
use pgvolvra.Exec.Laws.{After, Triple, Triple-bind, Triple-if, Triple-pure, Triple-both}
use pgvolvra.Format.{Change, Platform, IsFaithful}
use pgvolvra.World.{touch, now}
use pgvolvra.Archive.{Sys, in_world}
use pgvolvra.Archive.Durable.{Durable, Safe, touch-Durable, touch-Keeps, now-Durable}
use pgvolvra.Feed.{Message, Feed, set_skip_to, report_status}
use pgvolvra.Feed.Growing.{handle-Grows}
use pgvolvra.Feed.Reported.{Kept, Acknowledged, report_status-Acknowledged, le-report_status}
use pgvolvra.Feed.Run.{
  Received, timed_out, receive_failed, not_copy_data, no_data, unknown_data, keepalive, xlog_data,
  Turn, Streaming, in_feed, in_stream, in_guard, due_at, status_interval, check_guard, acknowledge,
  send_status_now, send_status_if_due, receive_data, take_received, loop, begun, run,
}
use pgvolvra.Feed.Account.{last_acked, Accounted, Accounted-append, Streams, Broken, Streams-more}
use pgvolvra.Guard.{SlotGuard, SlotRow, Guarding, check}
use pgvolvra.Guard.Laws.{Checked, Stopped, check-Checked}

module _ (p : Platform) (faithful : IsFaithful p) (start : ℕ) (first : List Change) where
  abbrev pub Going : Streaming → Type 0
  Going = Streams p faithful start first

  abbrev pub Stuck : Streaming → Type 0
  Stuck = Broken p faithful start first

  After-in_feed :
      {A : Type 0} (m : Exec Feed A) (new : List Change) (st : Streaming)
      → Accounted p faithful start (first ++ new) st
      → (x : Outcome A × Feed) → m st.feed ≡ x
      → After
          (λ _ f. (more : List Change) × Durable p ((first ++ new) ++ more) f.sys)
          (λ f. Safe p f.sys)
          x
      → After (λ _. Going) Stuck (in_feed m st)
  After-in_feed m new st a (ok r, f) e (more, d) = rw e (
      Streams-more p faithful start first new more (record st { feed = f }) d
        (Accounted-append p faithful start (first ++ new) more st a))
  After-in_feed m new st a (err x, f) e h = rw e (new, h, a)

  Triple-in_feed :
      {A : Type 0} (m : Exec Feed A)
      → ((hist : List Change)
          → Triple
              (λ f. Durable p hist f.sys)
              m
              (λ _ f. (more : List Change) × Durable p (hist ++ more) f.sys)
              (λ f. Safe p f.sys))
      → Triple Going (in_feed m) (λ _. Going) Stuck
  Triple-in_feed m t = record {
    at = λ st (new, d, a). After-in_feed m new st a _ refl ((t (first ++ new)).at st.feed d);
  }

  After-in_stream :
      {A : Type 0} (m : Exec Sys A) (new : List Change) (st : Streaming)
      → Accounted p faithful start (first ++ new) st
      → (x : Outcome A × Sys) → m st.feed.sys ≡ x
      → After (λ _. Durable p (first ++ new)) (Safe p) x
      → After (λ _. Going) Stuck (in_stream m st)
  After-in_stream m new st a (ok r, s) e d = rw e (new, d, a)
  After-in_stream m new st a (err x, s) e h = rw e (new, h, a)

  Triple-in_stream :
      {A : Type 0} (m : Exec Sys A)
      → ((hist : List Change) → Triple (Durable p hist) m (λ _. Durable p hist) (Safe p))
      → Triple Going (in_stream m) (λ _. Going) Stuck
  Triple-in_stream m t = record {
    at = λ st (new, d, a). After-in_stream m new st a _ refl ((t (first ++ new)).at st.feed.sys d);
  }

  After-attempted :
      {A : Type 0} (m : Exec Sys A) (new : List Change) (st : Streaming)
      → Accounted p faithful start (first ++ new) st
      → (x : Outcome A × Sys) → m st.feed.sys ≡ x
      → After (λ _. Durable p (first ++ new)) (Durable p (first ++ new)) x
      → After (λ _. Going) Stuck (attempted (in_stream m) st)
  After-attempted m new st a (ok r, s) e d = rw e (new, d, a)
  After-attempted m new st a (err x, s) e d = rw e (new, d, a)

  After-acknowledge :
      (new : List Change) (st : Streaming)
      → Accounted p faithful start (first ++ new) st
      → (x : Outcome ℕ × Sys) → report_status p st.acked st.feed.sys ≡ x
      → After
          (λ pos s. Acknowledged p faithful (first ++ new) st.acked pos s × (st.acked ≤ pos))
          (λ s. Safe p s × Unit {0})
          x
      → After (λ _. Going) Stuck (acknowledge p st)
  unfolding acknowledge
  After-acknowledge new st (last, all, bridged) (ok pos, s) e ((d, why), up) = rw e (
    new,
    d,
    (
      refl,
      (
        (first ++ new, [], sym (append-nil (first ++ new)), d, justified why),
        omega (arith, last, up),
        all,
      ),
      bridged,
    ),
  )
    where
      Why : ℕ → Type 0
      Why before =
          (pos ≡ before)
          ⊎ ((lsn : Bytes) × (p.parse_lsn lsn ≡ some pos)
              × Kept p faithful (first ++ new) start s lsn)

      justified : Why st.acked → Why (last_acked p faithful start st.acked_all)
      justified (inl same) = inl (same ∙ last)
      justified (inr kept) = inr kept
  After-acknowledge new st a (err x, s) e h = rw e (new, h.0, a)

  acknowledge-Streams : Triple Going (acknowledge p) (λ _. Going) Stuck
  acknowledge-Streams = record {
    at = λ st (new, d, a). After-acknowledge new st a _ refl (
        (Triple-both (report_status p st.acked)
            (report_status-Acknowledged p faithful (first ++ new) st.acked)
            (le-report_status p st.acked)).at
          st.feed.sys (d, tt));
  }

  After-in_guard :
      (g : SlotGuard) (m : Exec Guarding (Unit {0})) (pos : ℕ) (new : List Change) (st : Streaming)
      → Accounted p faithful start (first ++ new) st
      → (x : Outcome (Unit {0}) × Guarding)
      → m (record { sys = st.feed.sys; warned = st.warned; advanced = none }) ≡ x
      → After (λ _. Checked p faithful g (first ++ new) pos) (Stopped p faithful g) x
      → After (λ _. Going) Stuck (in_guard m st)
  After-in_guard g m pos new st a (err x, k) e h = rw (e, h.1) (new, h.0, a)
  After-in_guard g m pos new st a (ok r, k) e (inl h) = rw (e, h.1) (new, h.0, a)
  After-in_guard g m pos new st a (ok r, k) e (inr (current, gap, moved, is_gap, clean)) =
      let (last, all, bridged) = Accounted-append p faithful start (first ++ new) (gap ∷ []) st a in
      rw (e, moved)
        (Streams-more p faithful start first new (gap ∷ [])
          (record st {
            feed = record st.feed { sys = k.sys };
            warned = k.warned;
            advanced_all = current ∷ st.advanced_all;
          })
          clean.0 (last, all, ((pos, gap, first ++ new, [], is_gap, refl), bridged)))

  check_guard-Streams :
      (guard : Option SlotGuard) (row : Option SlotRow) (pos : ℕ)
      → Triple Going (check_guard p guard row pos) (λ _. Going) Stuck
  check_guard-Streams none row pos = Triple-pure tt (λ st h. h)
  check_guard-Streams (some g) row pos = record {
    at = λ st (new, d, a).
        After-in_guard g (check p g pos row) pos new st a _ refl
          ((check-Checked p faithful g (first ++ new) pos row).at _ (d, refl));
  }

  -- A local that the account does not mention.
  due_at-Streams : (t : ℕ) → Triple Going (due_at t) (λ _. Going) Stuck
  due_at-Streams t = record { at = λ st h. h }

  now-Streams : Triple Going (in_stream (in_world now)) (λ _. Going) Stuck
  now-Streams = Triple-in_stream (in_world now) (λ hist. now-Durable p hist)

  module _ (pk_columns : ℕ → List Bytes) (guard : Option SlotGuard) where
    send_status_now-Streams :
        (row : Option SlotRow)
        → Triple Going (send_status_now p pk_columns guard row) (λ _. Going) Stuck
    unfolding send_status_now
    send_status_now-Streams row = Triple-bind (acknowledge p) _ acknowledge-Streams λ pos.
        Triple-bind (attempted (in_stream (in_world (touch query)))) _
          (record {
            at = λ st (new, d, a).
                After-attempted (in_world (touch query)) new st a _ refl
                  ((touch-Keeps p (first ++ new) query).at st.feed.sys d);
          })
          λ _. Triple-bind (check_guard p guard row pos) _ (check_guard-Streams guard row pos) λ _.
            Triple-bind (in_stream (in_world now)) (λ t. due_at (t + status_interval)) now-Streams
              λ t. due_at-Streams (t + status_interval)

    send_status_if_due-Streams :
        (row : Option SlotRow)
        → Triple Going (send_status_if_due p pk_columns guard row) (λ _. Going) Stuck
    unfolding send_status_if_due
    send_status_if_due-Streams row = Triple-bind (in_stream (in_world now)) _ now-Streams λ t.
        Triple-bind (gets (λ st. ltb st.next_status t)) _ (record { at = λ st h. h })
          λ due. Triple-if due _ _ (send_status_now-Streams row) (Triple-pure tt (λ st h. h))

    throw-Broken : {e : Error} → Triple {A = Unit {0}} Going (throw e) (λ _. Going) Stuck
    throw-Broken = record { at = λ st (new, d, a). (new, (d.0, d.2), a) }

    receive_data-Grows :
        (m : Option (ℕ × Option Message)) (hist : List Change)
        → Triple
            (λ f. Durable p hist f.sys)
            (receive_data p pk_columns guard m)
            (λ _ f. (more : List Change) × Durable p (hist ++ more) f.sys)
            (λ f. Safe p f.sys)
    receive_data-Grows none hist = record { at = λ f d. (d.0, d.2) }
    receive_data-Grows (some (at_lsn, m)) hist = handle-Grows p faithful pk_columns at_lsn hist m

    take_received-Streams :
        (r : Received) → Triple Going (take_received p pk_columns guard r) (λ _. Going) Stuck
    unfolding take_received
    take_received-Streams timed_out = Triple-pure tt (λ st h. h)
    take_received-Streams receive_failed = throw-Broken
    take_received-Streams not_copy_data = Triple-pure tt (λ st h. h)
    take_received-Streams no_data = throw-Broken
    take_received-Streams unknown_data = Triple-pure tt (λ st h. h)
    take_received-Streams (keepalive none) = throw-Broken
    take_received-Streams (keepalive (some false)) = Triple-pure tt (λ st h. h)
    take_received-Streams (keepalive (some true)) =
        Triple-bind (in_stream (in_world now)) due_at now-Streams due_at-Streams
    take_received-Streams (xlog_data m) =
        Triple-in_feed (receive_data p pk_columns guard m) (receive_data-Grows m)

    loop-Streams :
        (turns : List Turn) → Triple Going (loop p pk_columns guard turns) (λ _. Going) Stuck
    unfolding loop
    loop-Streams [] = Triple-pure tt (λ st h. h)
    loop-Streams (t ∷ ts) = Triple-if t.cancelled (pure tt) _ (Triple-pure tt (λ st h. h)) (
        Triple-bind
          (send_status_if_due p pk_columns guard t.slot_row
            >> take_received p pk_columns guard t.received)
          (λ _. loop p pk_columns guard ts)
          (Triple-bind (send_status_if_due p pk_columns guard t.slot_row)
            (λ _. take_received p pk_columns guard t.received)
            (send_status_if_due-Streams t.slot_row) λ _. take_received-Streams t.received)
          λ _. loop-Streams ts)

    set_skip_to-Grows :
        (hist : List Change)
        → Triple
            (λ f. Durable p hist f.sys)
            (set_skip_to p)
            (λ _ f. (more : List Change) × Durable p (hist ++ more) f.sys)
            (λ f. Safe p f.sys)
    unfolding set_skip_to
    set_skip_to-Grows hist = record {
      at = λ f d. ([], subst (λ l. Durable p l f.sys) (sym (append-nil hist)) d);
    }

    pub run-Streams :
        (turns : List Turn)
        → Triple
            (λ st. Durable p first st.feed.sys)
            (run p pk_columns guard start turns)
            (λ _. Going)
            Stuck
    unfolding run
    run-Streams turns =
        Triple-bind (modify (begun p pk_columns guard start)) _
          (record {
            at = λ st d. (
              [],
              subst (λ l. Durable p l st.feed.sys) (sym (append-nil first)) d,
              (refl, tt, tt),
            );
          })
          λ _.
            Triple-bind (in_stream (in_world (touch start_replication))) _
              (Triple-in_stream (in_world (touch start_replication))
                (λ hist. touch-Durable p hist start_replication))
              λ _.
                Triple-bind (in_feed (set_skip_to p)) _
                  (Triple-in_feed (set_skip_to p) set_skip_to-Grows)
                  λ _.
                    Triple-bind (in_stream (in_world now) >>= due_at) _
                      (Triple-bind (in_stream (in_world now)) due_at now-Streams due_at-Streams)
                      λ _. loop-Streams turns

    -- A run of the stream from a position, over any turns of the outside and with any calls that fail:
    -- whether it goes on, was cancelled or stopped at an error, the archive had a beginning of the history
    -- durably at each status update, and the position that this acknowledged is that of the update before,
    -- `start` for the first, or that of the last change which a run of secured segments from the first
    -- had at that time; none is before an earlier one or before `start`; and each position that the guard moved the slot to has a record in the history, which is
    -- marked as a gap and runs up to that position. Without an error the archive has the history
    -- of before, with more changes after it.
    pub run-Accounted :
        (turns : List Turn) (st : Streaming)
        → Durable p first st.feed.sys
        → After (λ _. Going) Stuck (run p pk_columns guard start turns st)
    run-Accounted turns st d = (run-Streams turns).at st d
