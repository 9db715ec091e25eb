-- ===== src/Archive/Push.antt =====
-- On the uploads of the archive writer (companion/archive.go, pushRemote).
use pgvolvra.Base.{
  ℕ, ◌≤◌, ◌≡◌, refl, sym, ◌∙◌, ap, inl, inr, Option, none, some, Bool, false, List, [], append-nil,
  length, Bytes, Assoc, lookup, insert, arith,
}
use mathlib.Core.Option.{some-injective}
use pgvolvra.Exec.{gets, Error, ◌>>=◌}
use pgvolvra.Exec.Laws.{After, Triple, Triple-bind, Triple-weaken, Triple-if, Triple-attempted}
use pgvolvra.Format.{Change, Platform, IsFaithful}
use pgvolvra.Format.Names.{manifest_name}
use pgvolvra.World.Laws.{now-At}
use pgvolvra.Remote.{Remote}
use pgvolvra.Archive.{attempted, set_arch, Archive, Sys}
use pgvolvra.Archive.Upload.{
  push_if, push_noting, failure, refresh_manifest, publish, publish_unless, push_segments, push_to,
  push_remote, push_quietly, ready,
}
use pgvolvra.Archive.Segments.{ready-le, cores}
use pgvolvra.Archive.State.{put_manifest-At, Unpublished, Is, Triple-in_world, Triple-gets}
use pgvolvra.Archive.Uploading.{write_manifest-Durable, pure-Durable, settled, upload_from-Durable}
use pgvolvra.Archive.Durable.{Listed-with, Backed, Listed, Durable, Durable-intro, Triple-from}
use pgvolvra.Archive.Backed.{Covered-le, Backed-manifest}

module _ (p : Platform) (faithful : IsFaithful p) (hist : List Change) where
  module _ (a : Archive) (B D : Assoc Bytes) (b : Backed p a B) (l : Listed p hist a D) where
    -- The bucket's manifest is the disk's, with any count of segments that it covers.
    published-Backed :
        (body : Bytes) (seq : ℕ)
        → lookup manifest_name D ≡ some body
        → seq ≤ length a.man.segments
        → Backed p (record a { manifest_seq = seq }) (insert manifest_name body B)
    published-Backed body seq found le =
        Backed-manifest p a B body l.names.1 seq
          (ap p.decode_manifest (some-injective body l.names.0 (sym found ∙ l.names.2)) ∙ l.names.3)
          (l.names.4 ∙ append-nil (cores l.names.1.segments)) le b

    publish-Durable :
        (covered : ℕ)
        → covered ≤ length a.man.segments
        → Triple (Is p a B D) (publish p covered) (λ _. Durable p hist) (Durable p hist)
    unfolding publish
    publish-Durable covered le =
        Triple-bind _ _
          (Triple-weaken _ (put_manifest-At p a B D) (λ s h. h) (λ _ s h. h) unpublished)
          λ _. record {
            at = λ s (body, (e, h), found).
                (Triple-bind _ _
                    (Triple-weaken _
                      (Triple-in_world _ (now-At p (insert manifest_name body B) D) a) (λ s h. h)
                      (λ _ s h. h) (λ s h. absurd h.1))
                    λ t. record {
                      at = λ s h.
                          Durable-intro p hist
                            (record a { manifest_seq = covered; last_manifest_at = some t })
                            (insert manifest_name body B) D
                            (remembered t (published-Backed body covered found le))
                            (Listed-with p hist a D a.last_push_err covered (some t) l)
                            (record s {
                              arch = record s.arch {
                                manifest_seq = covered;
                                last_manifest_at = some t;
                              };
                            })
                            (
                              ap
                                  (λ (a : Archive). record a {
                                    manifest_seq = covered;
                                    last_manifest_at = some t;
                                  })
                                  h.0,
                              h.1,
                            );
                    }).at
                  s (e, h);
          }
      where
        unpublished : (s : Sys) → Unpublished p a B D s → Durable p hist s
        unpublished s (inl h) = Durable-intro p hist a B D b l s h
        unpublished s (inr (body, h, found)) =
            Durable-intro p hist a (insert manifest_name body B) D
              (published-Backed body a.manifest_seq found (Covered-le p a B b.covered)) l s h

        remembered :
            (t : ℕ) {C : Assoc Bytes}
            → Backed p (record a { manifest_seq = covered }) C
            → Backed p (record a { manifest_seq = covered; last_manifest_at = some t }) C
        remembered t b = record {
          numbered = b.numbered;
          held = b.held;
          covered = b.covered;
          opened = b.opened;
        }

    publish_unless-Durable :
        (force : Bool) (covered : ℕ) (last : Option ℕ)
        → covered ≤ length a.man.segments
        → Triple
            (Is p a B D)
            (publish_unless p force covered last)
            (λ _. Durable p hist)
            (Durable p hist)
    unfolding publish_unless
    publish_unless-Durable force covered last le =
        Triple-bind _ _
          (Triple-weaken _ (Triple-in_world _ (now-At p B D) a) (λ s h. h) (λ _ s h. h)
            (λ s h. absurd h.1))
          λ t. Triple-if _ _ _ (pure-Durable p faithful hist a B D b l) (publish-Durable covered le)

    refresh_manifest-Durable :
        (force : Bool)
        → Triple (Is p a B D) (refresh_manifest p force a) (λ _. Durable p hist) (Durable p hist)
    unfolding refresh_manifest
    refresh_manifest-Durable force = Triple-if _ _ _ (pure-Durable p faithful hist a B D b l) (
        publish_unless-Durable force (ready 0 a.man.segments) a.last_manifest_at
          (omega (arith, ready-le 0 a.man.segments b.numbered)))

  gets_arch-Durable :
      (force : Bool)
      → Triple
          (Durable p hist)
          (gets (λ s. s.arch) >>= refresh_manifest p force)
          (λ _. Durable p hist)
          (Durable p hist)
  gets_arch-Durable force = Triple-from p hist _ λ a B D b l.
      Triple-gets p (λ a. a) (refresh_manifest p force) (refresh_manifest-Durable a B D b l force)

  push_segments-Durable :
      (force : Bool) (r : Remote) (a : Archive) (B D : Assoc Bytes)
      → Backed p a B
      → Listed p hist a D
      → Triple
          (Is p a B D)
          (push_segments p force r a.man.segments)
          (λ _. Durable p hist)
          (Durable p hist)
  unfolding push_segments
  push_segments-Durable force r a B D b l =
      Triple-bind _ _ (upload_from-Durable p faithful hist r [] a.man.segments false a B D refl b l)
        λ changed.
          Triple-bind _ _
            (Triple-if changed _ _ (Triple-from p hist _ (write_manifest-Durable p faithful hist))
              (Triple-from p hist _ (pure-Durable p faithful hist)))
            λ _. gets_arch-Durable force

  pub push_to-Durable :
      (force : Bool) (r : Remote)
      → Triple (Durable p hist) (push_to p force r) (λ _. Durable p hist) (Durable p hist)
  unfolding push_to
  push_to-Durable force r = Triple-from p hist _ λ a B D b l.
      Triple-gets p (λ a. a.man.segments) (push_segments p force r)
        (push_segments-Durable force r a B D b l)

  -- `pushRemote` keeps what the archive believes of the bucket true, on success and on every error.
  pub push_remote-Durable :
      (force : Bool)
      → Triple (Durable p hist) (push_remote p force) (λ _. Durable p hist) (Durable p hist)
  unfolding push_remote
  push_remote-Durable force =
      Triple-from p hist _
        λ a B D b l. Triple-gets p (λ a. a.remote) (push_if p force) (pushed a.remote a B D b l)
    where
      pushed :
          (r : Option Remote) (a : Archive) (B D : Assoc Bytes)
          → Backed p a B
          → Listed p hist a D
          → Triple (Is p a B D) (push_if p force r) (λ _. Durable p hist) (Durable p hist)
      pushed none a B D b l = pure-Durable p faithful hist a B D b l
      pushed (some r) a B D b l =
          Triple-weaken _ (push_to-Durable force r) (Durable-intro p hist a B D b l) (λ _ s h. h)
            (λ s h. h)

  -- In a rotation the upload's error is noted and not returned.
  pub push_quietly-Durable :
      Triple (Durable p hist) (push_quietly p) (λ _. Durable p hist) (Durable p hist)
  unfolding push_quietly
  push_quietly-Durable =
      Triple-from p hist _
        λ a B D b l. Triple-gets p (λ a. a.remote) (push_noting p) (noted a.remote a B D b l)
    where
      Durable-noted :
          (e : Option Error) (s : Sys)
          → Durable p hist s
          → Durable p hist (record s { arch = record s.arch { last_push_err = e } })
      Durable-noted e s (b, l, h) = (
        record { numbered = b.numbered; held = b.held; covered = b.covered; opened = b.opened },
        Listed-with p hist s.arch s.world.disk e s.arch.manifest_seq s.arch.last_manifest_at l,
        h,
      )

      noted :
          (r : Option Remote) (a : Archive) (B D : Assoc Bytes)
          → Backed p a B
          → Listed p hist a D
          → Triple (Is p a B D) (push_noting p r) (λ _. Durable p hist) (Durable p hist)
      noted none a B D b l = pure-Durable p faithful hist a B D b l
      noted (some r) a B D b l =
          Triple-bind (attempted (push_to p false r))
            (λ answer. set_arch (λ a. record a { last_push_err = failure p answer }))
            (Triple-attempted (push_to p false r) (
              Triple-weaken (push_to p false r) (push_to-Durable false r)
                (Durable-intro p hist a B D b l) (λ _ s h. h) (λ s h. h)))
            λ answer. record {
              at = λ s h. Durable-noted (failure p answer) s (settled p faithful hist answer s h);
            }

  -- An upload of the pending segments and of the manifest, whether it succeeds or stops at an error,
  -- keeps what the archive holds: the history of changes, the segments that are marked as uploaded in
  -- the bucket, and the bucket's manifest.
  pub push_remote-history :
      (force : Bool) (s : Sys)
      → Durable p hist s
      → After (λ _. Durable p hist) (Durable p hist) (push_remote p force s)
  push_remote-history force s h = (push_remote-Durable force).at s h
