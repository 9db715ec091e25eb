-- ===== src/Archive/Sealed.antt =====
-- On what the closing of the archive leaves (companion/archive.go, Close).
use pgvolvra.Base.{
  arith, ℕ, ◌≡◌, refl, ◌∙◌, ◌⊎◌, inl, inr, true, Bool-cases, ◌==◌, ==_iff, Option, none, some, List,
  Bytes,
}
use pgvolvra.Exec.{Action, ok, sync_file, close_file}
use pgvolvra.Exec.Laws.{
  After, After-same, Triple, Triple-bind, Triple-weaken, Triple-pure, Triple-both,
}
use pgvolvra.Format.{Change, Platform, IsFaithful}
use pgvolvra.World.{touch, now}
use pgvolvra.Archive.{Archive, Sys, in_world, write_manifest}
use pgvolvra.Archive.Upload.{push_remote, push_quietly}
use pgvolvra.Archive.Writer.{record_segment, seal, rotate_from, rotate, close}
use pgvolvra.Archive.Frame.{
  Keeps, outside-Keeps, write_manifest-Keeps, push_quietly-Keeps, push_remote-Keeps,
}
use pgvolvra.Archive.Durable.{touch-Durable, Durable, Safe}
use pgvolvra.Archive.Push.{push_remote-Durable}
use pgvolvra.Archive.Rotation.{rotate-Durable}
use pgvolvra.Archive.Pending.{Nothing, push_remote-Nothing}

-- No segment is open, or one without a change.
abbrev pub Resting : Archive → Type 0
Resting a = (a.cur ≡ none) ⊎ (a.cur_count ≡ 0)

abbrev Closed : Archive → Type 0
Closed a = a.cur ≡ none

module _ (p : Platform) where
  record_segment-Closed : (name : Bytes) → Keeps Closed (record_segment p name)
  unfolding record_segment
  record_segment-Closed name = Triple-bind (in_world now) _ (outside-Keeps Closed now) λ t. record {
    at = λ s h.
        (Triple-bind (write_manifest p) (λ _. push_quietly p) (write_manifest-Keeps Closed p)
            λ _. push_quietly-Keeps Closed p (λ _ a h. h) (λ _ _ a h. h) (λ _ a h. h)).at
          _ h;
  }

  seal-Closed :
      (name : Bytes) → Triple (λ _. Unit {0}) (seal p name) (λ _ s. Closed s.arch) (λ _. Unit {0})
  unfolding seal
  seal-Closed name =
      Triple-bind (in_world (touch sync_file)) _ (outside-Keeps (λ _. Unit {0}) (touch sync_file))
        λ _.
          Triple-bind (in_world (touch close_file)) _
            (outside-Keeps (λ _. Unit {0}) (touch close_file))
            λ _.
              Triple-weaken _ (record { at = λ s h. (record_segment-Closed name).at _ refl })
                (λ s h. h) (λ _ s h. h) (λ s h. tt)

  rotate_from-Resting :
      (cur : Option Bytes) (count : ℕ)
      → Triple
          (λ s. (s.arch.cur ≡ cur) × (s.arch.cur_count ≡ count))
          (rotate_from p cur count)
          (λ _ s. Resting s.arch)
          (λ _. Unit {0})
  unfolding rotate_from
  rotate_from-Resting none count = Triple-pure tt (λ s h. inl h.0)
  rotate_from-Resting (some name) count = elim (Bool-cases (count == 0)) [
    | inl e ↦ rw e (Triple-pure tt (λ s h. inr (h.1 ∙ (==_iff count 0).0 e)))
    | inr e ↦
        rw e
          (Triple-weaken (seal p name) (seal-Closed name) (λ s h. tt) (λ _ s h. inl h) (λ s h. h))
  ]

  pub rotate-Resting : Triple (λ _. Unit {0}) (rotate p) (λ _ s. Resting s.arch) (λ _. Unit {0})
  unfolding rotate
  rotate-Resting = record {
    at = λ s h. (rotate_from-Resting s.arch.cur s.arch.cur_count).at s (refl, refl);
  }

  rotate_from-none :
      (cur : Option Bytes) (count : ℕ) (s : Sys)
      → (cur ≡ none) ⊎ (count ≡ 0)
      → rotate_from p cur count s ≡ (ok tt, s)
  unfolding rotate_from
  rotate_from-none none count s h = refl
  rotate_from-none (some name) count s (inl e) = absurd (ground (arith, e))
  rotate_from-none (some name) count s (inr e) = rw e refl

  rotate-none : (s : Sys) → Resting s.arch → rotate p s ≡ (ok tt, s)
  unfolding rotate
  rotate-none s h = rotate_from-none s.arch.cur s.arch.cur_count s h

  module _ (faithful : IsFaithful p) (hist : List Change) where
    -- The archive has the history, all of it sealed.
    abbrev pub Clean : Sys → Type 0
    Clean s = Durable p hist s × Resting s.arch

    pub rotate-At : Triple (Durable p hist) (rotate p) (λ _. Clean) (Safe p)
    rotate-At =
        Triple-weaken (rotate p)
          (Triple-both (rotate p) (rotate-Durable p faithful hist) rotate-Resting) (λ s d. (d, tt))
          (λ _ s h. h) (λ s h. h.0)

    -- A rotation that succeeds keeps the history and leaves no change in an open segment: all of it is
    -- in the files of segments that the manifest names, each with the hash, the number of changes and
    -- the first and last position of its own. After an error, what is believed to be in the bucket still is.
    pub rotate-Clean : (s : Sys) → Durable p hist s → After (λ _. Clean) (Safe p) (rotate p s)
    rotate-Clean s d = rotate-At.at s d

    -- A call that changes nothing here.
    pub touch-Clean : (x : Action) → Triple Clean (in_world (touch x)) (λ _. Clean) (Safe p)
    touch-Clean x =
        Triple-weaken (in_world (touch x))
          (Triple-both (in_world (touch x)) (touch-Durable p hist x)
            (outside-Keeps Resting (touch x)))
          (λ s h. h) (λ _ s h. h) (λ s h. h.0)

    push_remote-Resting : Keeps Resting (push_remote p true)
    push_remote-Resting = push_remote-Keeps Resting p (λ _ a h. h) (λ _ _ a h. h) (λ _ a h. h) true

    close-At :
        Triple (Durable p hist) (close p) (λ _ s. Clean s × Nothing p faithful s.arch) (Safe p)
    unfolding close
    close-At = Triple-bind (rotate p) _ rotate-At λ _.
        Triple-weaken (push_remote p true)
          (Triple-both (push_remote p true) (push_remote-Nothing p faithful hist)
            push_remote-Resting)
          (λ s h. h) (λ _ s ((d, n), r). ((d, r), n)) (λ s h. (h.0.0, h.0.2))

    -- Closing the archive without an error keeps the history, leaves no change in an open segment, and
    -- with a bucket no segment that waits for it: the position that may be acknowledged is the end of
    -- the last segment. After an error, what is believed to be in the bucket still is.
    pub close-Clean :
        (s : Sys)
        → Durable p hist s
        → After (λ _ s. Clean s × Nothing p faithful s.arch) (Safe p) (close p s)
    close-Clean s d = close-At.at s d

    -- Closing it once more keeps that, whatever is returned.
    pub close-again : (s : Sys) → Clean s → Clean (close p s).1
    unfolding close
    close-again s (d, r) = rw (rotate-none s r) (
        After-same Clean (push_remote p true s) (
          (Triple-both (push_remote p true) (push_remote-Durable p faithful hist true)
              push_remote-Resting).at
            s (d, r)))
