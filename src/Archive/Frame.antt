-- ===== src/Archive/Frame.antt =====
-- On what the calls out and the uploads change of the archive's own state (companion/archive.go).
use pgvolvra.Base.{
  ℕ, true, false, inl, inr, Bool, Bool-cases, if◌then◌else◌, Option, none, some, List, [], ◌∷◌,
  ◌++◌, Bytes,
}
use pgvolvra.Exec.{Exec, Error, Outcome, ok, err, pure, throw, attempted, open_file}
use pgvolvra.Exec.Laws.{After, After-same, Triple, Triple-bind, Triple-if, Triple-pure}
use pgvolvra.Format.{Segment, uploaded, Platform}
use pgvolvra.Format.Names.{manifest_name, manifest_tmp}
use pgvolvra.World.{World, touch, now, read_disk, write_disk, rename, upload}
use pgvolvra.Remote.{Remote, put_segment}
use pgvolvra.Archive.{Archive, Sys, in_world, set_arch, set_segments, write_manifest, save_manifest}
use pgvolvra.Archive.Upload.{
  ready, marked, uploaded_one, upload_one, upload_from, put_manifest, publish, publish_unless,
  refresh_manifest, push_segments, push_to, push_if, push_remote, push_noting, push_quietly,
  failure,
}

module _ (Q : Archive → Type 0) where
  -- The action leaves the assertion true, whether it succeeds or not.
  abbrev pub Keeps : {A : Type 0} → Exec Sys A → Type 0
  Keeps m = Triple (λ s. Q s.arch) m (λ _ s. Q s.arch) (λ s. Q s.arch)

  kept_by :
      {A : Type 0} (a : Archive) (x : Outcome A × World)
      → Q a
      → After {S = Sys} (λ _ s. Q s.arch) (λ s. Q s.arch) (x.0, record { arch = a; world = x.1 })
  kept_by a (ok r, w) h = h
  kept_by a (err e, w) h = h

  pub outside-Keeps : {A : Type 0} (m : Exec World A) → Keeps (in_world m)
  outside-Keeps m = record { at = λ s h. kept_by s.arch (m s.world) h }

  attempted-Keeps : {A : Type 0} (m : Exec Sys A) → Keeps m → Keeps (attempted m)
  attempted-Keeps m t = record { at = λ s h. After-same (λ s. Q s.arch) (m s) (t.at s h) }

  pub write_manifest-Keeps : (p : Platform) → Keeps (write_manifest p)
  unfolding write_manifest save_manifest
  write_manifest-Keeps p = record {
    at = λ s h.
        let text = p.encode_manifest s.arch.man ++ b'\n' ∷ [] in
        (Triple-bind (in_world (write_disk manifest_tmp text))
            (λ _. in_world (rename manifest_tmp manifest_name))
            (outside-Keeps (write_disk manifest_tmp text))
            λ _. outside-Keeps (rename manifest_tmp manifest_name)).at
          s h;
  }

  pub put_manifest-Keeps : (p : Platform) → Keeps (put_manifest p)
  unfolding put_manifest
  put_manifest-Keeps p =
      Triple-bind (in_world (touch open_file)) _ (outside-Keeps (touch open_file)) λ _.
        Triple-bind (in_world (read_disk manifest_name)) _ (outside-Keeps (read_disk manifest_name))
          λ body.
            Triple-bind (in_world (upload true manifest_name body)) _
              (outside-Keeps (upload true manifest_name body)) λ _. Triple-pure tt (λ s h. h)

  pure-Keeps : {A : Type 0} (a : A) → Keeps (pure a)
  pure-Keeps a = Triple-pure a (λ s h. h)

  module _ (p : Platform)
      (on_segments : (segs : List Segment) (a : Archive) → Q a → Q (set_segments segs a))
      (on_manifest : (n t : ℕ) (a : Archive)
        → Q a
        → Q (record a { manifest_seq = n; last_manifest_at = some t }))
      (on_error : (e : Option Error) (a : Archive) → Q a → Q (record a { last_push_err = e })) where
    uploaded_one-Keeps :
        (done rest : List Segment) (seg : Segment) (changed : Bool) (answer : Outcome Bytes)
        → Keeps (uploaded_one p done seg rest changed answer)
    unfolding uploaded_one
    uploaded_one-Keeps done rest seg changed (err e) =
        Triple-bind (attempted (if changed then write_manifest p else pure tt)) (λ _. throw e)
          (attempted-Keeps _ (Triple-if changed _ _ (write_manifest-Keeps p) (pure-Keeps tt)))
          λ _. record { at = λ s h. h }
    uploaded_one-Keeps done rest seg changed (ok etag) =
        Triple-bind (in_world now) _ (outside-Keeps now)
          λ t. record { at = λ s h. on_segments (done ++ marked p seg t etag ∷ rest) s.arch h }

    upload_one-Keeps :
        (r : Remote) (done rest : List Segment) (seg : Segment) (changed : Bool)
        → Keeps (upload_one p r done seg rest changed)
    unfolding upload_one
    upload_one-Keeps r done rest seg changed =
        let put = put_segment p r.checksum seg.file seg.file seg.sha256 in
        Triple-bind (attempted (in_world put)) _
          (attempted-Keeps (in_world put) (outside-Keeps put))
          (uploaded_one-Keeps done rest seg changed)

    upload_from-Keeps :
        (r : Remote) (done rest : List Segment) (changed : Bool)
        → Keeps (upload_from p r done rest changed)
    unfolding upload_from
    upload_from-Keeps r done [] changed = pure-Keeps changed
    upload_from-Keeps r done (seg ∷ rest) changed = elim (Bool-cases (uploaded seg)) [
      | inl there ↦ rw (there, upload_from) (upload_from-Keeps r (done ++ seg ∷ []) rest changed)
      | inr absent ↦
          rw (absent, upload_from)
            (Triple-bind (upload_one p r done seg rest changed) _
              (upload_one-Keeps r done rest seg changed)
              λ seg'. upload_from-Keeps r (done ++ seg' ∷ []) rest true)
    ]

    publish-Keeps : (covered : ℕ) → Keeps (publish p covered)
    unfolding publish
    publish-Keeps covered = Triple-bind (put_manifest p) _ (put_manifest-Keeps p) λ _.
        Triple-bind (in_world now) _ (outside-Keeps now)
          λ t. record { at = λ s h. on_manifest covered t s.arch h }

    refresh_manifest-Keeps : (force : Bool) (a : Archive) → Keeps (refresh_manifest p force a)
    unfolding refresh_manifest publish_unless
    refresh_manifest-Keeps force a = Triple-if _ _ _ (pure-Keeps tt) (
        Triple-bind (in_world now) _ (outside-Keeps now)
          λ t. Triple-if _ _ _ (pure-Keeps tt) (publish-Keeps (ready 0 a.man.segments)))

    pub push_to-Keeps : (force : Bool) (r : Remote) → Keeps (push_to p force r)
    unfolding push_to push_segments
    push_to-Keeps force r = record {
      at = λ s h.
          (Triple-bind (upload_from p r [] s.arch.man.segments false) _
              (upload_from-Keeps r [] s.arch.man.segments false)
              λ changed.
                Triple-bind (if changed then write_manifest p else pure tt) _
                  (Triple-if changed _ _ (write_manifest-Keeps p) (pure-Keeps tt))
                  λ _. record { at = λ s h. (refresh_manifest-Keeps force s.arch).at s h }).at
            s h;
    }

    push_if-Keeps : (force : Bool) (r : Option Remote) → Keeps (push_if p force r)
    unfolding push_if
    push_if-Keeps force none = pure-Keeps tt
    push_if-Keeps force (some r) = push_to-Keeps force r

    pub push_remote-Keeps : (force : Bool) → Keeps (push_remote p force)
    unfolding push_remote
    push_remote-Keeps force = record { at = λ s h. (push_if-Keeps force s.arch.remote).at s h }

    push_noting-Keeps : (r : Option Remote) → Keeps (push_noting p r)
    unfolding push_noting
    push_noting-Keeps none = pure-Keeps tt
    push_noting-Keeps (some r) =
        Triple-bind (attempted (push_to p false r))
          (λ answer. set_arch (λ a. record a { last_push_err = failure p answer }))
          (attempted-Keeps (push_to p false r) (push_to-Keeps false r))
          λ answer. record { at = λ s h. on_error (failure p answer) s.arch h }

    pub push_quietly-Keeps : Keeps (push_quietly p)
    unfolding push_quietly
    push_quietly-Keeps = record { at = λ s h. (push_noting-Keeps s.arch.remote).at s h }
