-- ===== src/Recovery/Working.antt =====
-- The archive writer from its opening on, where no call out fails and there is no bucket
-- (companion/archive.go).
use pgvolvra.Base.{
  lookup, Assoc, ℕ, suc, ◌≡◌, refl, ◌∙◌, ap, false, true, Bool, none, List, [], ◌∷◌, ◌++◌, Bytes,
  arith,
}
use pgvolvra.Exec.{Outcome, ok, err, attempted}
use pgvolvra.Exec.Laws.{After, After-both, After-weaken, Triple-bind, Triple-pure}
use pgvolvra.Format.{Change, Platform, IsFaithful}
use pgvolvra.Format.Names.{manifest_name}
use pgvolvra.World.{tick, World, attempt, touch, now}
use pgvolvra.Archive.{Archive, Sys, write_manifest}
use pgvolvra.Archive.Upload.{push_remote}
use pgvolvra.Archive.Durable.{Durable}
use pgvolvra.Archive.Session.{
  Call, append_change, rotate_now, close_archive, push_pending, attach, appended, run, run-Durable,
}
use pgvolvra.Archive.Writer.{rotate, append, close}
use pgvolvra.World.{read_disk}
use pgvolvra.Archive.Opening.{with_arch, opened, new_manifest, start_archive, open_archive}
use pgvolvra.Archive.Opened.{After-with_arch}
use pgvolvra.Recovery.Whole.{opened-Durable}
use pgvolvra.World.Laws.{At}
use pgvolvra.Archive.Succeeding.{
  Works, Stays, Calm, Local, append-Stays, rotate-Stays, close-Stays, push_remote-Stays,
  write_manifest-Stays,
}

module _ (p : Platform) where
  -- The calls attach no bucket.
  abbrev pub is_local : List Call → Bool
  is_local [] = true
  is_local (append_change c ∷ calls) = is_local calls
  is_local (rotate_now ∷ calls) = is_local calls
  is_local (close_archive ∷ calls) = is_local calls
  is_local (push_pending force ∷ calls) = is_local calls
  is_local (attach r ∷ calls) = false

  attempted-Stays : (force : Bool) → Stays (Calm Local) (attempted (push_remote p force))
  attempted-Stays force = record {
    at = λ s h. never (push_remote p force s) ((push_remote-Stays p force).at s h);
  }
    where
      never : (x : Outcome (Unit {0}) × Sys) → After (λ _. Calm Local) (λ _. ⊥) x → Calm Local x.1
      never (ok _, s) h = h
      never (err _, s) h = absurd h

  run-Stays : (calls : List Call) → is_local calls ≡ true → Stays (Calm Local) (run p calls)
  unfolding run
  run-Stays [] e = Triple-pure tt (λ s h. h)
  run-Stays (append_change c ∷ calls) e =
      Triple-bind (append p c) _ (append-Stays p c) λ _. run-Stays calls e
  run-Stays (rotate_now ∷ calls) e =
      Triple-bind (rotate p) _ (rotate-Stays p) λ _. run-Stays calls e
  run-Stays (close_archive ∷ calls) e =
      Triple-bind (close p) _ (close-Stays p) λ _. run-Stays calls e
  run-Stays (push_pending force ∷ calls) e =
      Triple-bind (attempted (push_remote p force)) _ (attempted-Stays force) λ _. run-Stays calls e
  run-Stays (attach r ∷ calls) e = absurd (ground (arith, e))

  -- What is left of an action that succeeds.
  succeeded :
      {A : Type 0} (Q : A → Sys → Type 0) (x : Outcome A × Sys)
      → After Q (λ _. ⊥) x
      → (a : A) × (s : Sys) × (x ≡ (ok a, s)) × Q a s
  succeeded Q (ok a, s) h = (a, s, refl, h)
  succeeded Q (err e, s) h = absurd h

  run-local :
      (faithful : IsFaithful p) (hist : List Change) (calls : List Call) (s : Sys)
      → Durable p hist s
      → s.arch.remote ≡ none
      → Works s.world
      → is_local calls ≡ true
      → (s' : Sys) × (run p calls s ≡ (ok tt, s')) × Durable p (hist ++ appended calls) s'
  run-local faithful hist calls s d here works local =
      let (u, s', ran, both) = succeeded _ (run p calls s) (
        After-weaken (λ _ s h. h) (λ s h. h.1) (run p calls s)
          (After-both _ _ _ _ (run p calls s) ((run-Durable p faithful calls hist).at s d)
            ((run-Stays calls local).at s (here, works)))) in
      (s', ran, both.0)

module _ (p : Platform) (faithful : IsFaithful p) (slot publication : Bytes) (max_bytes : ℕ)
    (B D : Assoc Bytes) (new : lookup manifest_name D ≡ none) where
  abbrev Made : Archive → World → Type 0
  Made a w = Local a × Works w

  start_archive-Made :
      (w : World) → Works w → After Made (λ _. ⊥) (start_archive p slot publication max_bytes w)
  unfolding start_archive now
  start_archive-Made w works =
      let a = opened max_bytes (new_manifest p slot publication max_bytes (w.clock w.calls)) in
      After-weaken (λ a w h. h) (λ w h. h.1) (with_arch a (write_manifest p) (tick w))
        (After-with_arch p faithful B D (Calm Local) (λ _. ⊥) a (write_manifest p) (tick w) _ _ refl
          ((write_manifest-Stays Local p).at (record { arch = a; world = tick w }) (refl, works)))

  open_archive-Made :
      (w : World)
      → Works w
      → lookup manifest_name w.disk ≡ none
      → After Made (λ _. ⊥) (open_archive p slot publication max_bytes w)
  unfolding open_archive touch attempt read_disk
  open_archive-Made w works absent =
      rw (works w.calls, works (suc w.calls), absent) (start_archive-Made _ works)

  made :
      (x : Outcome Archive × World)
      → After Made (λ _. ⊥) x
      → (a : Archive) × (w : World) × (x ≡ (ok a, w)) × Made a w
  made (ok a, w) h = (a, w, refl, h)
  made (err e, w) h = absurd h

  -- Where no call out fails and there is no bucket, the opening of a new directory and any calls of the
  -- archive's methods after it are carried out to their end without an error, and leave durably the
  -- changes that were appended.
  pub run-succeeds :
      (w : World) (calls : List Call)
      → At p B D w
      → Works w
      → is_local p calls ≡ true
      → (a : Archive) × (w' : World) × (s : Sys) × (open_archive p slot publication max_bytes w
          ≡ (ok a, w'))
        × (run p calls (record { arch = a; world = w' }) ≡ (ok tt, s))
        × Durable p (appended calls) s
  run-succeeds w calls h works local =
      let (a, w', opens, (here, works')) =
        made (open_archive p slot publication max_bytes w)
          (open_archive-Made w works (ap (lookup manifest_name) h.disk_is ∙ new)) in
      let (s, ran, d) =
        run-local p faithful [] calls (record { arch = a; world = w' })
          (opened-Durable p faithful slot publication max_bytes B D new w w' a h opens) here works'
          local in
      (a, w', s, opens, ran, d)
