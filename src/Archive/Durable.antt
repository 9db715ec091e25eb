-- ===== src/Archive/Durable.antt =====
-- What the bucket holds, kept by every operation: the uploaded segments, and a manifest that names
-- as many segments as the archive believes.
use pgvolvra.Base.{
  suc, ◌+◌, ◌≤◌, ◌≡◌, refl, sym, subst, ◌⊎◌, some, List, [], ◌++◌, length, Bytes, Assoc, lookup,
}
use pgvolvra.Exec.{Action, Error, Exec}
use pgvolvra.Exec.Laws.{Triple, Triple-weaken}
use pgvolvra.Format.{Change, Platform, Manifest, Segment}
use pgvolvra.Format.Names.{manifest_name}
use pgvolvra.World.{touch, now}
use pgvolvra.World.Laws.{IsHonest, touch-At, now-At}
use pgvolvra.Archive.{ℕ, Option, segment_name, Archive, Sys, in_world}
use pgvolvra.Archive.Segments.{cores, Numbered, HoldsUploaded, Behind}
use pgvolvra.Archive.History.{Recorded}
use pgvolvra.Archive.State.{Is, Triple-in_world}

module _ (p : Platform) where
  -- The text at the manifest's name is a manifest of these segments and `tail` after them.
  abbrev pub Names : Assoc Bytes → List Segment → List Segment → Type 0
  Names m segs tail =
      (body : Bytes) × (named : Manifest) × (lookup manifest_name m ≡ some body)
      × (p.decode_manifest body ≡ some named)
      × (segs ≡ cores named.segments ++ tail)

  -- The bucket's manifest names the first of them, `manifest_seq` of them or more.
  abbrev pub Covered : Archive → Assoc Bytes → Type 0
  Covered a B =
      (a.manifest_seq ≡ 0)
      ⊎ ((tail : List Segment) × Names B (cores a.man.segments) tail
          × (a.manifest_seq + length tail ≤ length a.man.segments))

  pub record Backed (a : Archive) (B : Assoc Bytes) : Type 0 where
    pub numbered : Numbered 1 a.man.segments
    pub held : HoldsUploaded p B a.man.segments
    pub covered : Covered a B
    -- The open file is the next segment's.
    pub opened :
        (name : Bytes)
        → a.cur ≡ some name
        → (name ≡ segment_name (suc (length a.man.segments)))
          × (a.cur_seq ≡ suc (length a.man.segments))

  -- What is left after an error.
  abbrev pub Safe : Sys → Type 0
  Safe s = Backed s.arch s.world.bucket × IsHonest p s.world

  module _ (a : Archive) (B D : Assoc Bytes) where
    pub Safe-intro : Backed a B → (s : Sys) → Is p a B D s → Safe s
    Safe-intro b s (e, h) = (
      subst (λ B. Backed s.arch B) (sym h.bucket_is) (subst (λ a. Backed a B) (sym e) b),
      h.honest,
    )

module _ (p : Platform) (hist : List Change) where
  -- The disk's manifest names the archive's segments, all of them, and the files hold the changes
  -- that were appended.
  pub record Listed (a : Archive) (D : Assoc Bytes) : Type 0 where
    pub names : Names p D (cores a.man.segments) []
    -- It marks no more of them as uploaded than the archive does.
    pub marks : Behind names.1.segments a.man.segments
    pub recorded : Recorded p hist a D

  -- It says nothing of what is remembered of the uploads.
  pub Listed-with :
      (a : Archive) (D : Assoc Bytes) (e : Option Error) (seq : ℕ) (t : Option ℕ)
      → Listed a D
      → Listed (record a { last_push_err = e; last_manifest_at = t; manifest_seq = seq }) D
  Listed-with a D e seq t l = record {
    names = l.names;
    marks = l.marks;
    recorded = record {
      sealed = l.recorded.sealed;
      unsealed = l.recorded.unsealed;
      whole = l.recorded.whole;
      filed = l.recorded.filed;
      open_file = l.recorded.open_file;
    };
  }

  -- The archive's own record and the world agree. `Listed` is lost when a write of a record or a
  -- rotation's write of the manifest fails, and the companion stops there.
  abbrev pub Durable : Sys → Type 0
  Durable s = Backed p s.arch s.world.bucket × Listed s.arch s.world.disk × IsHonest p s.world

  module _ (a : Archive) (B D : Assoc Bytes) where
    pub Durable-intro : Backed p a B → Listed a D → (s : Sys) → Is p a B D s → Durable s
    Durable-intro b l s (e, h) = (
      subst (λ B. Backed p s.arch B) (sym h.bucket_is) (subst (λ a. Backed p a B) (sym e) b),
      subst (λ D. Listed s.arch D) (sym h.disk_is) (subst (λ a. Listed a D) (sym e) l),
      h.honest,
    )

  module _ {A : Type 0} {Q : A → Sys → Type 0} {E : Sys → Type 0} where
    -- To prove a triple from `Durable`, name the archive, the bucket and the disk.
    pub Triple-from :
        (m : Exec Sys A)
        → ((a : Archive) (B D : Assoc Bytes)
            → Backed p a B
            → Listed a D
            → Triple (Is p a B D) m Q E)
        → Triple Durable m Q E
    Triple-from m t = record {
      at = λ s h.
          (t s.arch s.world.bucket s.world.disk h.0 h.1).at s
            (refl, record { bucket_is = refl; disk_is = refl; honest = h.2 });
    }

  -- A call that changes nothing here.
  pub touch-Keeps : (a : Action) → Triple Durable (in_world (touch a)) (λ _. Durable) Durable
  touch-Keeps a = Triple-from _ λ arch B D b l.
      Triple-weaken _ (Triple-in_world _ (touch-At p B D a) arch) (λ s h. h)
        (λ _. Durable-intro arch B D b l) (Durable-intro arch B D b l)

  pub touch-Durable : (a : Action) → Triple Durable (in_world (touch a)) (λ _. Durable) (Safe p)
  touch-Durable a = Triple-weaken _ (touch-Keeps a) (λ s h. h) (λ _ s h. h) (λ s h. (h.0, h.2))

  pub now-Durable : Triple Durable (in_world now) (λ _. Durable) (Safe p)
  now-Durable = Triple-from _ λ arch B D b l.
      Triple-weaken _ (Triple-in_world _ (now-At p B D) arch) (λ s h. h)
        (λ _. Durable-intro arch B D b l) (λ s h. absurd h.1)
