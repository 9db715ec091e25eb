-- ===== src/Archive/State.antt =====
-- Assertions on the archive together with the world, and the rules for its basic steps.
use pgvolvra.Base.{
  ◌⊎◌, inl, inr, lookup-moved_ne, lookup-moved_to, lookup-insert_ne, ◌≡◌, refl, sym, ap, subst, ◌≢◌,
  some, [], ◌∷◌, ◌++◌, Bytes, Assoc, lookup, insert, arith,
}
use pgvolvra.Exec.{open_file, Exec, Outcome, ok, err, ◌>>=◌, gets}
use pgvolvra.Exec.Laws.{After, Triple, Triple-bind, Triple-weaken, Triple-pure}
use pgvolvra.Format.{Platform}
use pgvolvra.Format.Names.{manifest_name, manifest_tmp}
use pgvolvra.World.{World}
use pgvolvra.World.Laws.{
  touch-At, read_disk-At, upload_md5-At, MayHoldExactly, At, write_disk-At, rename-At,
}
use pgvolvra.Archive.{Archive, Sys, in_world, set_arch, write_manifest, save_manifest}
use pgvolvra.Archive.Upload.{put_manifest}

After-in_world :
    {A : Type 0} (Q : A → World → Type 0) (E : World → Type 0) (a : Archive) (x : Outcome A × World)
    → After Q E x
    → After {S = Sys}
        (λ r s. (s.arch ≡ a) × Q r s.world)
        (λ s. (s.arch ≡ a) × E s.world)
        (x.0, record { arch = a; world = x.1 })
After-in_world Q E a (ok r, w) h = (refl, h)
After-in_world Q E a (err e, w) h = (refl, h)

module _ {A : Type 0} {P : World → Type 0} {Q : A → World → Type 0} {E : World → Type 0} where
  -- A call out leaves the archive's own state as it is.
  pub Triple-in_world :
      (m : Exec World A)
      → Triple P m Q E
      → (a : Archive)
      → Triple
          (λ s. (s.arch ≡ a) × P s.world)
          (in_world m)
          (λ r s. (s.arch ≡ a) × Q r s.world)
          (λ s. (s.arch ≡ a) × E s.world)
  Triple-in_world m t a = record {
    at = λ s h. rw (← h.0) (After-in_world Q E s.arch (m s.world) (t.at s.world h.1));
  }

-- Files that the manifest's rewriting leaves alone.
abbrev pub SameFiles : Assoc Bytes → Assoc Bytes → Type 0
SameFiles D D' = (n : Bytes) → n ≢ manifest_name → n ≢ manifest_tmp → lookup n D' ≡ lookup n D

module _ (p : Platform) where
  -- The archive, the bucket and the disk are these.
  abbrev pub Is : Archive → Assoc Bytes → Assoc Bytes → Sys → Type 0
  Is a B D s = (s.arch ≡ a) × At p B D s.world

  module _ {A : Type 0} {Q : A → Sys → Type 0} {E : Sys → Type 0} {a : Archive}
      {B D : Assoc Bytes} where
    -- A reading of the archive's own state.
    pub Triple-gets :
        {X : Type 0} (f : Archive → X) (k : X → Exec Sys A)
        → Triple (Is a B D) (k (f a)) Q E
        → Triple (Is a B D) (gets (λ s. f s.arch) >>= k) Q E
    Triple-gets f k t = record {
      at = λ s h. subst (λ x. After Q E (k (f x) s)) (sym h.0) (t.at s h);
    }

    -- A change of it.
    pub Triple-set :
        (f : Archive → Archive) (k : Unit {0} → Exec Sys A)
        → Triple (Is (f a) B D) (k tt) Q E
        → Triple (Is a B D) (set_arch f >>= k) Q E
    Triple-set f k t = record { at = λ s h. t.at (record s { arch = f s.arch }) (ap f h.0, h.1) }

  module _ (a : Archive) (B D : Assoc Bytes) where
    abbrev manifest_text : Bytes
    manifest_text = p.encode_manifest a.man ++ b'\n' ∷ []

    -- A success leaves the manifest of this state.
    abbrev pub Written : Sys → Type 0
    Written s =
        (D' : Assoc Bytes) × Is a B D' s
        × (lookup manifest_name D' ≡ some manifest_text)
        × SameFiles D D'

    -- A failure leaves the manifest that was there.
    abbrev pub Unwritten : Sys → Type 0
    Unwritten s =
        (D' : Assoc Bytes) × Is a B D' s
        × (lookup manifest_name D' ≡ lookup manifest_name D)
        × SameFiles D D'

    save_manifest-At : Triple (Is a B D) (save_manifest p a.man) (λ _. Written) Unwritten
    unfolding save_manifest
    save_manifest-At =
        Triple-bind _ _
          (Triple-weaken _ (Triple-in_world _ (write_disk-At p B D manifest_tmp manifest_text) a)
            (λ s h. h) (λ _ s h. h)
            (λ s (e, (x, h)). (
              _,
              (e, h),
              lookup-insert_ne _ _ x D names_differ,
              λ n _ ne. lookup-insert_ne _ n x D ne,
            )))
          λ _.
            Triple-weaken _
              (Triple-in_world _
                (rename-At p B (insert manifest_tmp manifest_text D) manifest_tmp manifest_name) a)
              (λ s h. h)
              (λ _ s h. (
                _,
                h,
                lookup-moved_to manifest_tmp manifest_name manifest_text D,
                λ n ne nt. lookup-moved_ne manifest_tmp manifest_name manifest_text n D ne nt,
              ))
              (λ s h. (
                _,
                h,
                lookup-insert_ne _ _ _ D names_differ,
                λ n _ ne. lookup-insert_ne _ n _ D ne,
              ))
      where
        names_differ : manifest_name ≢ manifest_tmp
        names_differ e = ground arith

    pub write_manifest-At : Triple (Is a B D) (write_manifest p) (λ _. Written) Unwritten
    unfolding write_manifest
    write_manifest-At = Triple-gets (λ a. a.man) (save_manifest p) save_manifest-At

    -- The disk's manifest is in the bucket.
    abbrev pub Published : Sys → Type 0
    Published s =
        (body : Bytes) × Is a (insert manifest_name body B) D s
        × (lookup manifest_name D ≡ some body)

    -- An upload that failed may have been stored.
    abbrev pub Unpublished : Sys → Type 0
    Unpublished s = Is a B D s ⊎ Published s

    pub put_manifest-At : Triple (Is a B D) (put_manifest p) (λ _. Published) Unpublished
    unfolding put_manifest
    put_manifest-At =
        Triple-bind _ _
          (Triple-weaken _ (Triple-in_world _ (touch-At p B D open_file) a) (λ s h. h) (λ _ s h. h)
            (λ s h. inl h))
          λ _.
            Triple-bind _ _
              (Triple-weaken _ (Triple-in_world _ (read_disk-At p B D manifest_name) a) (λ s h. h)
                (λ _ s h. h) (λ s h. inl h))
              λ body. record {
                at = λ s (e, (found, h)).
                    (Triple-bind _ _
                        (Triple-weaken _
                          (Triple-in_world _ (upload_md5-At p B D manifest_name body) a) (λ s h. h)
                          (λ _ s h. (body, h, found)) (stored body found))
                        λ _. Triple-pure tt (λ s h. h)).at
                      s (e, h);
              }
      where
        stored :
            (body : Bytes)
            → lookup manifest_name D ≡ some body
            → (s : Sys) → (s.arch ≡ a) × MayHoldExactly p B D manifest_name body s.world
            → Unpublished s
        stored body found s (e, inl h) = inl (e, h)
        stored body found s (e, inr h) = inr (body, (e, h), found)
