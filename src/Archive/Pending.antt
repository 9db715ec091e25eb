-- ===== src/Archive/Pending.antt =====
-- On what a forced upload leaves undone (companion/archive.go, pushRemote).
use pgvolvra.Base.{
  ℕ, suc, ◌+◌, ◌≤◌, ◌≡◌, refl, sym, ◌∙◌, ap, subst, true, false, inl, inr, Bool, Bool-cases, Option,
  none, some, List, [], ◌∷◌, ◌++◌, append_assoc, append-nil, length, last?, All, All-append, Bytes,
  ltb, ◌==◌, ==_iff, arith,
}
use pgvolvra.Exec.{Exec, Outcome, ok, err, attempted}
use pgvolvra.Exec.Laws.{
  After-weaken, After-both, Triple, Triple-bind, Triple-weaken, Triple-if, Triple-pure,
}
use pgvolvra.Format.{Change, Segment, uploaded, Platform, IsFaithful}
use pgvolvra.World.{now}
use pgvolvra.Remote.{Remote, put_segment}
use pgvolvra.Archive.{
  Archive, Sys, in_world, write_manifest, resume_lsn, resume_from, end_of, pending, pending_uploads,
}
use pgvolvra.Archive.Upload.{
  ready, uploaded_one, upload_one, upload_from, put_manifest, publish, publish_unless,
  refresh_manifest, push_segments, push_to, push_if, push_remote,
}
use pgvolvra.Archive.Frame.{outside-Keeps, write_manifest-Keeps, put_manifest-Keeps}
use pgvolvra.Archive.Segments.{last_end-end_of, last_end, Numbered}
use pgvolvra.Archive.Durable.{Durable}
use pgvolvra.Archive.Push.{push_to-Durable}

abbrev Up : Segment → Type 0
Up s = uploaded s ≡ true

-- The manifest in the bucket covers what is uploaded, which is everything.
abbrev pub CaughtUp : Archive → Type 0
CaughtUp a = All Up a.man.segments × (a.manifest_seq ≡ ready 0 a.man.segments)

ready-Up :
    (k : ℕ) (segs : List Segment)
    → Numbered (suc k) segs
    → All Up segs
    → ready k segs ≡ k + length segs
unfolding ready
ready-Up k [] h up = omega arith
ready-Up k (s ∷ segs) h up = rw (up.0, h.0) (ready-Up (suc k) segs h.2 up.1 ∙ omega arith)

resume_from-Up :
    (covered k : ℕ) (last : Bytes) (segs : List Segment)
    → Numbered k segs
    → All Up segs
    → k + length segs ≤ suc covered
    → resume_from covered last segs ≡ last_end last segs
unfolding resume_from last_end
resume_from-Up covered k last [] h up le = refl
resume_from-Up covered k last (s ∷ segs) h up le =
    rw (up.0, within) (resume_from-Up covered (suc k) s.end_lsn segs h.2 up.1 (omega (arith, le)))
  where
    within : ltb covered s.seq ≡ false
    within = ground (arith, h.0, le)

pending-Up : (segs : List Segment) → All Up segs → pending segs ≡ 0
unfolding pending
pending-Up [] up = refl
pending-Up (s ∷ segs) up = ground (arith, up.0, pending-Up segs up.1)

module _ {A : Type 0} {P : Sys → Type 0} {Q : A → Sys → Type 0} {E : Sys → Type 0}
    (m : Exec Sys A) where
  -- A triple that says nothing of an error.
  loosely : Triple P m Q E → Triple P m Q (λ _. Unit {0})
  loosely t = Triple-weaken m t (λ s h. h) (λ _ s h. h) (λ s h. tt)

module _ (p : Platform) (faithful : IsFaithful p) (r : Remote) where
  -- The archive has this bucket and these segments.
  abbrev Has : List Segment → Archive → Type 0
  Has segs a = (a.remote ≡ some r) × (a.man.segments ≡ segs)

  module _ (done rest : List Segment) (seg : Segment) (changed : Bool) where
    abbrev Replaced : Segment → Sys → Type 0
    Replaced seg' s = Has (done ++ seg' ∷ rest) s.arch × Up seg'

    uploaded_one-Up :
        (answer : Outcome Bytes)
        → Triple
            (λ s. Has (done ++ seg ∷ rest) s.arch)
            (uploaded_one p done seg rest changed answer)
            Replaced
            (λ _. Unit {0})
    unfolding uploaded_one
    uploaded_one-Up (err e) = record { at = λ s h. tt }
    uploaded_one-Up (ok etag) =
        Triple-bind (in_world now) _
          (loosely (in_world now) (outside-Keeps (Has (done ++ seg ∷ rest)) now))
          λ t. record { at = λ s h. ((h.0, refl), ground (arith, faithful.stamp-ne-empty t)) }

    upload_one-Up :
        Triple
          (λ s. Has (done ++ seg ∷ rest) s.arch)
          (upload_one p r done seg rest changed)
          Replaced
          (λ _. Unit {0})
    unfolding upload_one
    upload_one-Up =
        Triple-bind (attempted (in_world (put_segment p r.checksum seg.file seg.file seg.sha256))) _
          (record { at = λ s h. h }) uploaded_one-Up

  abbrev AllUp : Archive → Type 0
  AllUp a = (a.remote ≡ some r) × All Up a.man.segments

  upload_from-Up :
      (done rest : List Segment) (changed : Bool)
      → All Up done
      → Triple
          (λ s. Has (done ++ rest) s.arch)
          (upload_from p r done rest changed)
          (λ _ s. AllUp s.arch)
          (λ _. Unit {0})
  unfolding upload_from
  upload_from-Up done [] changed up =
      Triple-pure changed (λ s h. (h.0, subst (All Up) (sym (append-nil done) ∙ sym h.1) up))
  upload_from-Up done (seg ∷ rest) changed up = elim (Bool-cases (uploaded seg)) [
    | inl there ↦
        rw (there, upload_from)
          (Triple-weaken _
            (upload_from-Up (done ++ seg ∷ []) rest changed
              (All-append Up done (seg ∷ []) up (there, tt)))
            (λ s h. (h.0, h.1 ∙ sym (append_assoc done (seg ∷ []) rest))) (λ _ s h. h) (λ s h. h))
    | inr absent ↦
        rw (absent, upload_from)
          (Triple-bind _ _ (upload_one-Up done rest seg changed) λ seg'. record {
            at = λ s (h, u).
                (upload_from-Up (done ++ seg' ∷ []) rest true
                    (All-append Up done (seg' ∷ []) up (u, tt))).at
                  s (h.0, h.1 ∙ sym (append_assoc done (seg' ∷ []) rest));
          })
  ]

  abbrev Caught : Sys → Type 0
  Caught s = (s.arch.remote ≡ some r) × CaughtUp s.arch

  module _ (a : Archive) (up : AllUp a) where
    publish-Caught :
        Triple (λ s. s.arch ≡ a) (publish p (ready 0 a.man.segments)) (λ _. Caught) (λ _. Unit {0})
    unfolding publish
    publish-Caught =
        Triple-bind _ _ (loosely (put_manifest p) (put_manifest-Keeps (λ b. b ≡ a) p)) λ _.
          Triple-bind (in_world now) _ (loosely (in_world now) (outside-Keeps (λ b. b ≡ a) now))
            λ t. record { at = λ s e. rw e (up.0, (up.1, refl)) }

    refresh_manifest-Caught :
        Triple (λ s. s.arch ≡ a) (refresh_manifest p true a) (λ _. Caught) (λ _. Unit {0})
    unfolding refresh_manifest publish_unless
    refresh_manifest-Caught = elim (Bool-cases (ready 0 a.man.segments == a.manifest_seq)) [
      | inl e ↦ rw e (
          Triple-pure tt (λ s h.
            rw h (up.0, (up.1, sym ((==_iff (ready 0 a.man.segments) a.manifest_seq).0 e)))))
      | inr e ↦ rw e (
          Triple-bind (in_world now) _ (loosely (in_world now) (outside-Keeps (λ b. b ≡ a) now))
            λ t. publish-Caught)
    ]

  push_segments-Caught :
      (segs : List Segment)
      → Triple (λ s. Has segs s.arch) (push_segments p true r segs) (λ _. Caught) (λ _. Unit {0})
  unfolding push_segments
  push_segments-Caught segs = Triple-bind _ _ (upload_from-Up [] segs false tt) λ changed.
      Triple-bind _ _
        (Triple-if changed _ _ (loosely (write_manifest p) (write_manifest-Keeps AllUp p))
          (Triple-pure tt (λ s h. h)))
        λ _. record { at = λ s up. (refresh_manifest-Caught s.arch up).at s refl }

  push_to-Caught :
      Triple (λ s. s.arch.remote ≡ some r) (push_to p true r) (λ _. Caught) (λ _. Unit {0})
  unfolding push_to
  push_to-Caught = record { at = λ s h. (push_segments-Caught s.arch.man.segments).at s (h, refl) }

module _ (p : Platform) (faithful : IsFaithful p) where
  -- Nothing waits for the bucket, and everything that is sealed may be acknowledged.
  abbrev pub Nothing : Archive → Type 0
  Nothing a = (pending_uploads a ≡ 0) × (resume_lsn a ≡ end_of (last? a.man.segments))

  Nothing-local : (a : Archive) → a.remote ≡ none → Nothing a
  unfolding pending_uploads resume_lsn
  Nothing-local a e = rw e (refl, refl)

  Nothing-Caught :
      (r : Remote) (a : Archive)
      → Numbered 1 a.man.segments
      → a.remote ≡ some r
      → CaughtUp a
      → Nothing a
  unfolding pending_uploads resume_lsn
  Nothing-Caught r a numbered e (up, covers) = rw e (
    pending-Up a.man.segments up,
    resume_from-Up a.manifest_seq 1 [] a.man.segments numbered up
          (omega (arith, covers, ready-Up 0 a.man.segments numbered up))
        ∙ last_end-end_of a.man.segments,
  )

  push_if-Nothing :
      (hist : List Change) (r : Option Remote) (s : Sys)
      → s.arch.remote ≡ r
      → Triple
          (λ s'. (s' ≡ s) × Durable p hist s')
          (push_if p true r)
          (λ _ s'. Durable p hist s' × Nothing s'.arch)
          (Durable p hist)
  unfolding push_remote
  push_if-Nothing hist none s e =
      Triple-pure tt
        (λ s' (same, d). (d, Nothing-local s'.arch (ap (λ (s : Sys). s.arch.remote) same ∙ e)))
  push_if-Nothing hist (some r) s e = record {
    at = λ s' (same, d).
        After-weaken (λ _ t (d, (there, up)). (d, Nothing-Caught r t.arch d.0.numbered there up))
          (λ t h. h.0) (push_to p true r s')
          (After-both _ _ _ _ (push_to p true r s')
            ((push_to-Durable p faithful hist true r).at s' d)
            ((push_to-Caught p faithful r).at s' (ap (λ (s : Sys). s.arch.remote) same ∙ e)));
  }

  -- A forced upload that succeeds leaves nothing pending: every segment is in the bucket, and the
  -- position that may be acknowledged is the end of the last segment.
  pub push_remote-Nothing :
      (hist : List Change)
      → Triple
          (Durable p hist)
          (push_remote p true)
          (λ _ s. Durable p hist s × Nothing s.arch)
          (Durable p hist)
  unfolding push_remote
  push_remote-Nothing hist = record {
    at = λ s d. (push_if-Nothing hist s.arch.remote s refl).at s (refl, d);
  }
