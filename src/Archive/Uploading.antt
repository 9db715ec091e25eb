-- ===== src/Archive/Uploading.antt =====
-- On the writing of the manifest and the loop of uploads (companion/archive.go, pushRemote).
use pgvolvra.Base.{
  suc, ℕ, ◌≡◌, refl, sym, ◌∙◌, ap, inl, inr, some, Bool, true, false, List, [], ◌∷◌, ◌++◌,
  append_assoc, append-nil, length, Bytes, Assoc, lookup, insert, arith, Bool-cases,
}
use pgvolvra.Exec.{Outcome, ok, err, Error, throw, pure}
use pgvolvra.Exec.Laws.{
  After, Triple, Triple-bind, Triple-weaken, Triple-pure, Triple-if, Triple-attempted,
}
use pgvolvra.Format.{Change, Platform, IsFaithful, Segment, uploaded}
use pgvolvra.Format.Names.{manifest_name}
use pgvolvra.World.Laws.{At, now-At, MayHold}
use pgvolvra.Remote.{Remote, digest}
use pgvolvra.Remote.Laws.{put_segment-At}
use pgvolvra.Archive.{Archive, Sys, set_segments, write_manifest}
use pgvolvra.Archive.Upload.{upload_one, uploaded_one, marked, upload_from}
use pgvolvra.Archive.Segments.{cores, Behind-refl}
use pgvolvra.Archive.State.{SameFiles, Is, Triple-in_world, Triple-set, write_manifest-At}
use pgvolvra.Archive.History.{Recorded, Recorded-same}
use pgvolvra.Archive.Durable.{Names, Backed, Listed, Durable, Durable-intro, Triple-from}
use pgvolvra.Archive.Backed.{Backed-lost, Backed-uploaded, Listed-uploaded}

module _ (p : Platform) (faithful : IsFaithful p) (hist : List Change) where
  pub written-Names :
      (a : Archive) (D : Assoc Bytes)
      → lookup manifest_name D ≡ some (p.encode_manifest a.man ++ b'\n' ∷ [])
      → Names p D (cores a.man.segments) []
  written-Names a D e = (_, a.man, e, faithful.decode-encode_manifest a.man, sym (append-nil _))

  -- The manifest was just written.
  pub written-Listed :
      (a : Archive) (D : Assoc Bytes)
      → lookup manifest_name D ≡ some (p.encode_manifest a.man ++ b'\n' ∷ [])
      → Recorded p hist a D
      → Listed p hist a D
  written-Listed a D e r = record {
    names = (_, a.man, e, faithful.decode-encode_manifest a.man, sym (append-nil _));
    marks = Behind-refl a.man.segments;
    recorded = r;
  }

  module _ (a : Archive) (B D : Assoc Bytes) (b : Backed p a B) (l : Listed p hist a D) where
    Recorded-in : (D' : Assoc Bytes) → SameFiles D D' → Recorded p hist a D'
    Recorded-in D' same =
        Recorded-same p hist a D D' same b.numbered
          (λ name e. (suc (length a.man.segments), (b.opened name e).0)) l.recorded

    Listed-unwritten :
        (D' : Assoc Bytes)
        → lookup manifest_name D' ≡ lookup manifest_name D
        → SameFiles D D'
        → Listed p hist a D'
    Listed-unwritten D' e same = record {
      names = (l.names.0, l.names.1, e ∙ l.names.2, l.names.3, l.names.4);
      marks = l.marks;
      recorded = Recorded-in D' same;
    }

    pub write_manifest-Durable :
        Triple (Is p a B D) (write_manifest p) (λ _. Durable p hist) (Durable p hist)
    write_manifest-Durable =
        Triple-weaken _ (write_manifest-At p a B D) (λ s h. h)
          (λ _ s (D', h, e, same).
            Durable-intro p hist a B D' b (written-Listed a D' e (Recorded-in D' same)) s h)
          (λ s (D', h, e, same). Durable-intro p hist a B D' b (Listed-unwritten D' e same) s h)

    pub pure-Durable : Triple (Is p a B D) (pure tt) (λ _. Durable p hist) (Durable p hist)
    pure-Durable = Triple-pure tt (Durable-intro p hist a B D b l)

  pub settled :
      (r : Outcome (Unit {0})) (s : Sys)
      → After (λ _. Durable p hist) (Durable p hist) (r, s)
      → Durable p hist s
  settled (ok _) s h = h
  settled (err _) s h = h

  -- The error branch of the loop: the marks are saved if they can be.
  uploaded_err :
      (Q : Segment → Sys → Type 0) (done rest : List Segment) (seg : Segment) (changed : Bool)
      (e : Error)
      → Triple (Durable p hist) (uploaded_one p done seg rest changed (err e)) Q (Durable p hist)
  unfolding uploaded_one
  uploaded_err Q done rest seg changed e =
      Triple-bind _ (λ _. throw e)
        (Triple-attempted _ (
          Triple-if changed _ _ (Triple-from p hist _ write_manifest-Durable)
            (Triple-from p hist _ pure-Durable)))
        λ r. record { at = λ s h. settled r s h }

  module _ (done rest : List Segment) (seg : Segment) where
    -- The marked segment stands in its place.
    abbrev Marked : Segment → Sys → Type 0
    Marked seg' s = (s.arch.man.segments ≡ done ++ seg' ∷ rest) × Durable p hist s

    module _ (a : Archive) (B D : Assoc Bytes) (split : a.man.segments ≡ done ++ seg ∷ rest)
        (b : Backed p a B) (l : Listed p hist a D) where
      -- The state behind the marking of the segment.
      marked-Durable :
          (x etag : Bytes) (t : ℕ)
          → digest p x ≡ seg.sha256
          → let a' = set_segments (done ++ marked p seg t etag ∷ rest) a in
            (s : Sys) → Is p a' (insert seg.file x B) D s → Marked (marked p seg t etag) s
      marked-Durable x etag t hash s h = (
        ap (λ a. a.man.segments) h.0,
        Durable-intro p hist _ (insert seg.file x B) D
            (Backed-uploaded p a B done rest seg split b x (marked p seg t etag) refl hash)
            (Listed-uploaded p a B done rest seg split b x (marked p seg t etag) refl
              (λ _. ground (arith, faithful.stamp-ne-empty t)) hist D l)
            s h,
      )

      uploaded_ok :
          (changed : Bool) (x etag : Bytes)
          → digest p x ≡ seg.sha256
          → Triple
              (Is p a (insert seg.file x B) D)
              (uploaded_one p done seg rest changed (ok etag))
              Marked
              (Durable p hist)
      unfolding uploaded_one
      uploaded_ok changed x etag hash =
          Triple-bind _ _
            (Triple-weaken _ (Triple-in_world _ (now-At p (insert seg.file x B) D) a) (λ s h. h)
              (λ _ s h. h) (λ s h. absurd h.1))
            λ t.
              Triple-set p (set_segments (done ++ marked p seg t etag ∷ rest))
                (λ _. pure (marked p seg t etag))
                (Triple-pure (marked p seg t etag) (marked-Durable x etag t hash))

      abbrev Lost : Sys → Type 0
      Lost s = (s.arch ≡ a) × MayHold p B D seg.file s.world

      Lost-Durable : uploaded seg ≡ false → (s : Sys) → Lost s → Durable p hist s
      Lost-Durable absent s (e, inl h) = Durable-intro p hist a B D b l s (e, h)
      Lost-Durable absent s (e, inr (x, h)) =
          Durable-intro p hist a (insert seg.file x B) D
            (Backed-lost p a B done rest seg split b x absent) l s (e, h)

      abbrev Arrived : Sys → Type 0
      Arrived s =
          (s.arch ≡ a)
          × ((x : Bytes) × At p (insert seg.file x B) D s.world × (digest p x ≡ seg.sha256))

      answered-Marked :
          uploaded seg ≡ false
          → (changed : Bool) (r : Outcome Bytes)
          → Triple
              (λ s. After (λ _. Arrived) Lost (r, s))
              (uploaded_one p done seg rest changed r)
              Marked
              (Durable p hist)
      answered-Marked absent changed (ok etag) = record {
        at = λ s (e, (x, h, hash)). (uploaded_ok changed x etag hash).at s (e, h);
      }
      answered-Marked absent changed (err e) =
          Triple-weaken _ (uploaded_err Marked done rest seg changed e) (Lost-Durable absent)
            (λ _ s h. h) (λ s h. h)

      pub upload_one-Marked :
          (r : Remote) (changed : Bool)
          → uploaded seg ≡ false
          → Triple (Is p a B D) (upload_one p r done seg rest changed) Marked (Durable p hist)
      unfolding upload_one
      upload_one-Marked r changed absent =
          Triple-bind _ _
            (Triple-attempted _
              (Triple-in_world _ (put_segment-At p B D r.checksum seg.file seg.file seg.sha256) a))
            λ answer. answered-Marked absent changed answer

  pub upload_from-Durable :
      (r : Remote) (done rest : List Segment) (changed : Bool) (a : Archive) (B D : Assoc Bytes)
      → a.man.segments ≡ done ++ rest
      → Backed p a B
      → Listed p hist a D
      → Triple
          (Is p a B D)
          (upload_from p r done rest changed)
          (λ _. Durable p hist)
          (Durable p hist)
  unfolding upload_from
  upload_from-Durable r done [] changed a B D e b l =
      Triple-pure changed (Durable-intro p hist a B D b l)
  upload_from-Durable r done (seg ∷ rest) changed a B D e b l = elim (Bool-cases (uploaded seg)) [
    | inl there ↦
        rw (there, upload_from)
          (upload_from-Durable r (done ++ seg ∷ []) rest changed a B D
            (e ∙ sym (append_assoc done (seg ∷ []) rest)) b l)
    | inr absent ↦
        rw (absent, upload_from)
          (Triple-bind _ _ (upload_one-Marked done rest seg a B D e b l r changed absent) λ seg'.
            record {
              at = λ s (e', d).
                  (upload_from-Durable r (done ++ seg' ∷ []) rest true s.arch s.world.bucket
                      s.world.disk (e' ∙ sym (append_assoc done (seg' ∷ []) rest)) d.0 d.1).at
                    s (refl, record { bucket_is = refl; disk_is = refl; honest = d.2 });
            })
  ]
