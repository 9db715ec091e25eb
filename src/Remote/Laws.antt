-- ===== src/Remote/Laws.antt =====
-- On the upload of a segment and its confirmation (companion/remote.go, PutSegment).
use pgvolvra.Base.{
  lookup-insert_self, Option-cases, ◌≡◌, sym, ◌∙◌, ap, inl, inr, some, Bytes, Assoc, lookup, insert,
  any, beq, beq_iff, Bool-cases, is_empty,
}
use mathlib.Core.Option.{some-injective}
use pgvolvra.Exec.{read_back_mismatch, read_object, open_file, pure, stored_mismatch, Exec, ◌>>=◌}
use pgvolvra.Exec.Laws.{
  After, Triple-given, Triple-check, Triple, Triple-bind, Triple-weaken, Triple-pure,
}
use pgvolvra.Format.{Platform}
use pgvolvra.Format.Names.{hex}
use pgvolvra.World.Laws.{
  At, dash, touch-At, read_disk-At, download-At, upload-At, MayHold, Answered,
}
use pgvolvra.World.{World, touch, read_disk, UploadInfo}
use pgvolvra.Remote.{Checksum, sends_md5, digest, read_back, confirm, put_segment}

module _ (p : Platform) where
  module _ (B D : Assoc Bytes) (name want : Bytes) (x : Bytes) where
    abbrev Stored : World → Type 0
    Stored w = At p (insert name x B) D w

    abbrev Confirmed : World → Type 0
    Confirmed w = Stored w × (digest p x ≡ want)

    read_back-Confirmed : Triple Stored (read_back p name want) (λ _. Confirmed) Stored
    unfolding read_back
    read_back-Confirmed = Triple-bind _ _ (download-At p (insert name x B) D name) λ b.
        Triple-given _ _ λ found. Triple-bind _ _ (touch-At p (insert name x B) D read_object) λ _.
          Triple-weaken _ (Triple-check Stored (beq (digest p b) want) (read_back_mismatch name))
            (λ w h. h) (λ _ w h. (h.1, rw (the_object b found) ((beq_iff (digest p b) want).0 h.0)))
            (λ w h. h)
      where
        the_object : (b : Bytes) → lookup name (insert name x B) ≡ some b → x ≡ b
        the_object b found = some-injective x b (sym (lookup-insert_self name x B) ∙ found)

    confirm-Confirmed :
        (info : UploadInfo)
        → Answered p B D name info x
        → Triple Stored (confirm p name want info.checksum_sha256) (λ _. Confirmed) Stored
    unfolding confirm digest
    confirm-Confirmed info answered = elim (Bool-cases (is_empty info.checksum_sha256)) [
      | inl e ↦ rw e read_back-Confirmed
      | inr full ↦ elim (Bool-cases (any dash info.checksum_sha256)) [
        | inl e ↦ rw (full, e) read_back-Confirmed
        | inr plain ↦ elim (Option-cases (p.base64_decode info.checksum_sha256)) [
          | inl e ↦ rw (full, plain, e) read_back-Confirmed
          | inr (raw, e) ↦
              rw (full, plain, e)
                (Triple-weaken _ (Triple-check Stored (beq (hex raw) want) (stored_mismatch name))
                  (λ w h. h)
                  (λ _ w h.
                    (h.1, ap hex (sym (answered raw plain e)) ∙ (beq_iff (hex raw) want).0 h.0))
                  (λ w h. h))
        ]
      ]
    ]

  -- A segment's upload: on success the bucket holds, under the segment's name, a text with the
  -- wanted digest; otherwise it is as it was, or holds some text under that name. Nothing else changes.
  pub put_segment-At :
      (B D : Assoc Bytes) (mode : Checksum) (local name want : Bytes)
      → Triple
          (At p B D)
          (put_segment p mode local name want)
          (λ _ w. (x : Bytes) × At p (insert name x B) D w × (digest p x ≡ want))
          (MayHold p B D name)
  unfolding put_segment
  put_segment-At B D mode local name want =
      Triple-bind _ _ (early (touch open_file) (touch-At p B D open_file)) λ _.
        Triple-bind _ _ (early (read_disk local) (read_disk-At p B D local)) λ body.
          Triple-given _ _ λ _. Triple-bind _ _ (upload-At p B D (sends_md5 mode) name body) λ info.
            record { at = λ w (x, stored, answered). (confirmed x info answered).at w stored }
    where
      early :
          {A : Type 0} {Q : A → World → Type 0} (m : Exec World A)
          → Triple (At p B D) m Q (At p B D)
          → Triple (At p B D) m Q (MayHold p B D name)
      early m t = Triple-weaken m t (λ w h. h) (λ a w h. h) (λ w h. inl h)

      confirmed :
          (x : Bytes) (info : UploadInfo)
          → Answered p B D name info x
          → Triple
              (At p (insert name x B) D)
              (confirm p name want info.checksum_sha256 >>= λ _. pure info.e_tag)
              (λ _ w. (x : Bytes) × At p (insert name x B) D w × (digest p x ≡ want))
              (MayHold p B D name)
      confirmed x info answered =
          Triple-bind _ _
            (Triple-weaken _ (confirm-Confirmed B D name want x info answered) (λ w h. h)
              (λ a w h. h) (λ w h. inr (x, h)))
            λ _. Triple-pure info.e_tag (λ w h. (x, h.0, h.1))

  -- An upload that succeeds leaves in the bucket, under the segment's name, a text with the wanted
  -- digest. After an error the bucket is as it was, or has some text under that name. Either way the
  -- other objects and the directory are as they were. It relies on the provider's checksums being
  -- those of the stored objects, where it answers with one.
  pub put_segment-stored :
      (B D : Assoc Bytes) (mode : Checksum) (local name want : Bytes) (w : World)
      → At p B D w
      → After
          (λ _ w'. (x : Bytes) × At p (insert name x B) D w' × (digest p x ≡ want))
          (MayHold p B D name)
          (put_segment p mode local name want w)
  put_segment-stored B D mode local name want w h = (put_segment-At B D mode local name want).at w h
