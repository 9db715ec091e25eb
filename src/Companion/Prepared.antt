-- ===== src/Companion/Prepared.antt =====
-- On where the stream of a run may start (companion/main.go, cmdRun).
use pgvolvra.Base.{
  ℕ, ◌≡◌, refl, ◌⊎◌, inl, inr, false, Option, none, some, List, Bytes, ltb, Bool-cases,
}
use pgvolvra.Exec.{query, connect, create_slot, attempted, pure, ◌>>◌}
use pgvolvra.Exec.Laws.{
  After-same, Triple, Triple-bind, Triple-weaken, Triple-if, Triple-pure, Triple-attempted,
}
use pgvolvra.Format.{Change, Platform, IsFaithful}
use pgvolvra.World.{touch}
use pgvolvra.Remote.{Remote}
use pgvolvra.Archive.{Sys, in_world, use_remote, resume_lsn}
use pgvolvra.Archive.Upload.{push_remote}
use pgvolvra.Archive.Durable.{Durable, Safe, touch-Durable, touch-Keeps}
use pgvolvra.Archive.Uploading.{settled}
use pgvolvra.Archive.Push.{push_remote-Durable}
use pgvolvra.Archive.Session.{use_remote-Durable}
use pgvolvra.Feed.Reported.{Kept, resume_lsn-Kept}
use pgvolvra.Feed.Run.{SlotState, ensure_slot, ensure_found, parsed_lsn}
use pgvolvra.Companion.Running.{
  attach, connect_twice, later_of, start_position, report_lock, prepare,
}

module _ (p : Platform) (faithful : IsFaithful p) (slot : SlotState) (first : List Change) where
  -- The position that the slot itself gives: the confirmed one, or the one of its creation.
  abbrev pub Own : ℕ → Type 0
  Own start =
      ((text : Bytes) × (slot.confirmed ≡ some text) × (p.parse_lsn text ≡ some start))
      ⊎ ((slot.confirmed ≡ none) × (p.parse_lsn slot.consistent_point ≡ some start))

  -- Where the stream may start: there, or where the archive had everything up to.
  abbrev pub Started : ℕ → Type 0
  Started start =
      Own start
      ⊎ ((s : Sys) × (lsn : Bytes) × Durable p first s
          × (p.parse_lsn lsn ≡ some start)
          × Kept p faithful first start s lsn)

  parsed-Own :
      (o : Option ℕ)
      → ((start : ℕ) → o ≡ some start → Own start)
      → Triple
          (Durable p first)
          (parsed_lsn p o)
          (λ start s. Durable p first s × Own start)
          (Safe p)
  parsed-Own none h = record { at = λ s d. (d.0, d.2) }
  parsed-Own (some start) h = record { at = λ s d. (d, h start refl) }

  found-Own :
      (o : Option Bytes)
      → slot.confirmed ≡ o
      → Triple
          (Durable p first)
          (ensure_found p slot.consistent_point o)
          (λ start s. Durable p first s × Own start)
          (Safe p)
  found-Own (some text) e = parsed-Own (p.parse_lsn text) (λ start read. inl (text, e, read))
  found-Own none e =
      Triple-bind (in_world (touch create_slot))
        (λ _. parsed_lsn p (p.parse_lsn slot.consistent_point)) (touch-Durable p first create_slot)
        λ _. parsed-Own (p.parse_lsn slot.consistent_point) (λ start read. inr (e, read))

  ensure_slot-Own :
      Triple
        (Durable p first)
        (ensure_slot p slot)
        (λ start s. Durable p first s × Own start)
        (Safe p)
  unfolding ensure_slot
  ensure_slot-Own =
      Triple-bind (in_world (touch query))
        (λ _. ensure_found p slot.consistent_point slot.confirmed) (touch-Durable p first query)
        λ _. found-Own slot.confirmed refl

  later_of-Started :
      (start : ℕ) (s : Sys) (o : Option ℕ)
      → p.parse_lsn (resume_lsn s.arch) ≡ o
      → Durable p first s
      → Own start
      → Started (later_of p start o)
  later_of-Started start s none e d own = inl own
  later_of-Started start s (some pos) e d own = elim (Bool-cases (ltb start pos)) [
    | inl later ↦
        rw later (inr (s, resume_lsn s.arch, d, e, resume_lsn-Kept p faithful first start s d))
    | inr before ↦ rw before (inl own)
  ]

  start_position-Started :
      Triple
        (Durable p first)
        (start_position p slot)
        (λ start s. Durable p first s × Started start)
        (Safe p)
  unfolding start_position
  start_position-Started =
      Triple-bind (ensure_slot p slot) _ ensure_slot-Own
        λ start. record { at = λ s (d, own). (d, later_of-Started start s _ refl d own) }

  attach-Durable :
      (r : Option Remote) → Triple (Durable p first) (attach p r) (λ _. Durable p first) (Safe p)
  attach-Durable none = Triple-pure tt (λ s d. d)
  attach-Durable (some r) =
      Triple-bind (use_remote r >> attempted (push_remote p false)) (λ _. pure tt)
        (Triple-bind (use_remote r) (λ _. attempted (push_remote p false))
          (use_remote-Durable p r first)
          λ _.
            Triple-weaken (attempted (push_remote p false))
              (Triple-attempted _ (push_remote-Durable p faithful first false)) (λ s h. h)
              (λ r s h. settled p faithful first r s h) (λ s h. h))
        λ _. Triple-pure tt (λ s d. d)

  report_lock-Durable :
      (r : Option Remote) (F : Type 0)
      → Triple
          (λ s. Durable p first s × F)
          (report_lock p r)
          (λ _ s. Durable p first s × F)
          (Safe p)
  report_lock-Durable none F = Triple-pure tt (λ s d. d)
  report_lock-Durable (some r) F =
      Triple-if r.lock.enabled (attempted (in_world (touch query)) >> pure tt) (pure tt)
        (record {
          at = λ s (d, f). (
            After-same (Durable p first) (in_world (touch query) s)
                ((touch-Keeps p first query).at s d),
            f,
          );
        })
        (Triple-pure tt (λ s d. d))

  pub prepare-Started :
      (r : Option Remote)
      → Triple
          (Durable p first)
          (prepare p r slot)
          (λ start s. Durable p first s × Started start)
          (Safe p)
  unfolding prepare connect_twice
  prepare-Started r = Triple-bind (attach p r) _ (attach-Durable r) λ _.
      Triple-bind (connect_twice p) _
        (Triple-bind (in_world (touch connect)) (λ _. in_world (touch connect))
          (touch-Durable p first connect) λ _. touch-Durable p first connect)
        λ _. Triple-bind (start_position p slot) _ start_position-Started λ start.
          Triple-bind (report_lock p r) (λ _. pure start) (report_lock-Durable r (Started start))
            λ _. Triple-pure start (λ s d. d)
