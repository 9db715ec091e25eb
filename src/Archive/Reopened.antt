-- ===== src/Archive/Reopened.antt =====
-- On the restart of the companion on what an archive left (companion/archive.go, OpenArchive).
use pgvolvra.Base.{
  ℕ, ◌≡◌, refl, sym, ◌∙◌, ap, subst, ◌⊎◌, inl, inr, Option, none, some, List, [], ◌∷◌, ◌++◌,
  append-nil, Bytes, Assoc, lookup, arith,
}
use mathlib.Core.Option.{some-injective}
use pgvolvra.Exec.Laws.{After, After-weaken}
use pgvolvra.Format.{Change, Manifest, Platform, IsFaithful}
use pgvolvra.Format.Names.{manifest_name}
use pgvolvra.World.{World}
use pgvolvra.World.Laws.{At}
use pgvolvra.Archive.{Archive}
use pgvolvra.Archive.Segments.{cores, Behind, Behind-refl, HoldsUploaded-Behind, Numbered-cores}
use pgvolvra.Archive.History.{Filed, Unsealed}
use pgvolvra.Archive.Durable.{Backed, Listed, Durable, Durable-intro}
use pgvolvra.Archive.Sealed.{Resting}
use pgvolvra.Archive.Opening.{opened, open_archive}
use pgvolvra.Archive.Opened.{Opened, Unopened, open_archive-Opened}

module _ (p : Platform) (faithful : IsFaithful p) (hist : List Change) (B D : Assoc Bytes) where
  -- An archive had this history, and left the directory and the bucket like this.
  abbrev pub LeftBy : Archive → Type 0
  LeftBy a = Backed p a B × Listed p hist a D

  module _ (before : Archive) (left : LeftBy before) where
    -- It goes on with the changes of the sealed segments, all of the history if no change was in an open
    -- one.
    abbrev pub Resumed : Archive → World → Type 0
    Resumed a w =
        (kept : List Change) × (lost : List Change) × (hist ≡ kept ++ lost)
        × Filed p D [] (cores before.man.segments) kept
        × (Resting before → lost ≡ [])
        × (cores a.man.segments ≡ cores before.man.segments)
        × Durable p kept (record { arch = a; world = w })

    none_left :
        (cur : Option Bytes) (count : ℕ) (hashed start end : Bytes) (cs : List Change)
        → Unsealed p D cur hashed count start end cs
        → count ≡ 0
        → cs ≡ []
    none_left none count hashed start end cs h e = h
    none_left (some name) count hashed start end [] h e = refl
    none_left (some name) count hashed start end (c ∷ cs) (_, _, counts, _, _) e =
        absurd (omega (arith, counts, e))

    all_sealed : (l : Listed p hist before D) → Resting before → l.recorded.unsealed ≡ []
    all_sealed l (inl e) = rw e at l.recorded.open_file
    all_sealed l (inr e) =
        none_left before.cur before.cur_count before.hashed before.cur_start before.cur_end
          l.recorded.unsealed l.recorded.open_file e

    module _ (max_bytes : ℕ) (b : Bytes) (m : Manifest) (found : lookup manifest_name D ≡ some b)
        (decoded : p.decode_manifest b ≡ some m) where
      abbrev l : Listed p hist before D
      l = left.1

      same_manifest : l.names.1 ≡ m
      same_manifest = some-injective l.names.1 m (
          sym l.names.3
          ∙ ap p.decode_manifest (some-injective l.names.0 b (sym l.names.2 ∙ found))
          ∙ decoded)

      same_cores : cores m.segments ≡ cores before.man.segments
      same_cores =
          ap (λ (m : Manifest). cores m.segments) (sym same_manifest)
          ∙ sym (append-nil (cores l.names.1.segments))
          ∙ sym l.names.4

      Backed-opened : Backed p (opened max_bytes m) B
      Backed-opened = record {
        numbered = Numbered-cores 1 m.segments before.man.segments same_cores left.0.numbered;
        held =
            HoldsUploaded-Behind p B m.segments before.man.segments same_cores
              (subst (λ (m : Manifest). Behind m.segments before.man.segments) same_manifest
                l.marks)
              left.0.held;
        covered = inl refl;
        opened = λ name e. absurd (ground (arith, e));
      }

      Listed-opened : Listed p l.recorded.sealed (opened max_bytes m) D
      Listed-opened = record {
        names = (b, m, found, decoded, sym (append-nil _));
        marks = Behind-refl m.segments;
        recorded = record {
          sealed = l.recorded.sealed;
          unsealed = [];
          whole = sym (append-nil l.recorded.sealed);
          filed =
              subst (λ segs. Filed p D [] segs l.recorded.sealed) (sym same_cores) l.recorded.filed;
          open_file = refl;
        };
      }

      opened-Resumed : (w : World) → At p B D w → Resumed (opened max_bytes m) w
      opened-Resumed w h = (
        l.recorded.sealed,
        l.recorded.unsealed,
        l.recorded.whole,
        l.recorded.filed,
        all_sealed l,
        same_cores,
        Durable-intro p l.recorded.sealed (opened max_bytes m) B D Backed-opened Listed-opened _
            (refl, h),
      )

    module _ (slot publication : Bytes) (max_bytes : ℕ) where
      Opened-Resumed :
          (a : Archive) (w : World)
          → Opened p faithful B D slot publication max_bytes a w
          → Resumed a w
      Opened-Resumed a w (inl (absent, d)) = absurd (ground (arith, absent, left.1.names.2))
      Opened-Resumed a w (inr (b, m, found, decoded, _, _, e, h)) =
          subst (λ a. Resumed a w) (sym e) (opened-Resumed max_bytes b m found decoded w h)

      -- A companion that starts on the directory and the bucket that an archive left between its
      -- operations, with or without an open segment, goes on with the same segments and with the
      -- history of them, which is the whole history where no change was in an open one; the
      -- history is durable again. Otherwise the opening fails, and the bucket is as it was.
      pub open_archive-Resumed :
          (w : World)
          → At p B D w
          → After Resumed (Unopened p faithful B D) (open_archive p slot publication max_bytes w)
      open_archive-Resumed w h =
          After-weaken Opened-Resumed (λ w e. e) (open_archive p slot publication max_bytes w)
            (open_archive-Opened p faithful B D slot publication max_bytes w h)

  -- A directory that a companion can be started on: a new one, or one that an archive left.
  abbrev pub Usable : Type 0
  Usable = ((lookup manifest_name D ≡ none) × (hist ≡ [])) ⊎ ((before : Archive) × LeftBy before)

  -- Of a new directory nothing is kept and nothing lost. Of one that an archive left, what is kept are
  -- the changes of its segments, in their files, and nothing is lost if no change was in an open one.
  abbrev pub Divided : List Change → List Change → Type 0
  Divided kept lost =
      ((lookup manifest_name D ≡ none) × (kept ≡ []) × (lost ≡ []))
      ⊎ ((before : Archive) × LeftBy before
          × Filed p D [] (cores before.man.segments) kept
          × (Resting before → lost ≡ []))

  -- The opened archive has the history, or the part of it that was sealed.
  abbrev pub Continues : Archive → World → Type 0
  Continues a w =
      (kept : List Change) × (lost : List Change) × (hist ≡ kept ++ lost)
      × Divided kept lost
      × Durable p kept (record { arch = a; world = w })

  module _ (slot publication : Bytes) (max_bytes : ℕ) where
    Opened-Continues :
        (lookup manifest_name D ≡ none)
        → hist ≡ []
        → (a : Archive) (w : World) → Opened p faithful B D slot publication max_bytes a w
        → Continues a w
    Opened-Continues absent e a w (inl (_, d)) = ([], [], e, inl (absent, refl, refl), d)
    Opened-Continues absent e a w (inr (b, m, found, _, _, _, _, _)) =
        absurd (ground (arith, absent, found))

    Resumed-Continues :
        (before : Archive) (left : LeftBy before) (a : Archive) (w : World)
        → Resumed before left a w
        → Continues a w
    Resumed-Continues before left a w (kept, lost, whole, filed, none_lost, _, d) =
        (kept, lost, whole, inr (before, left, filed, none_lost), d)

    pub open_archive-Continues :
        Usable
        → (w : World) → At p B D w
        → After Continues (Unopened p faithful B D) (open_archive p slot publication max_bytes w)
    open_archive-Continues (inl (absent, e)) w h =
        After-weaken (Opened-Continues absent e) (λ w h. h)
          (open_archive p slot publication max_bytes w)
          (open_archive-Opened p faithful B D slot publication max_bytes w h)
    open_archive-Continues (inr (before, left)) w h =
        After-weaken (Resumed-Continues before left) (λ w h. h)
          (open_archive p slot publication max_bytes w)
          (open_archive-Resumed before left slot publication max_bytes w h)
