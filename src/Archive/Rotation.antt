-- ===== src/Archive/Rotation.antt =====
-- On the rotation of segments (companion/archive.go, Rotate).
use pgvolvra.Base.{
  ◌≤◌, Bool-cases, ◌==◌, zero, ℕ, suc, ◌≡◌, refl, sym, ◌∙◌, ap, subst, inl, inr, Option, none, some,
  false, List, [], ◌∷◌, ◌++◌, append_assoc, append-nil, length, length-append, Bytes, Assoc, arith,
  last?,
}
use mathlib.Core.List.{map-append}
use pgvolvra.Exec.{◌>>◌, sync_file, close_file}
use pgvolvra.Exec.Laws.{Triple, Triple-bind, Triple-weaken, Triple-pure}
use pgvolvra.Format.{Change, Platform, IsFaithful, Segment, uploaded}
use pgvolvra.Format.Names.{segment_name}
use pgvolvra.World.Laws.{now-At, touch-At}
use pgvolvra.Remote.{digest}
use pgvolvra.Archive.{Sys, Archive, Sys, set_segments, write_manifest, chain_of}
use pgvolvra.Archive.Upload.{push_quietly}
use pgvolvra.Archive.Writer.{sealed, record_segment, seal, rotate_from, rotate}
use pgvolvra.Archive.Segments.{core, cores, Numbered-append, HoldsUploaded-append}
use pgvolvra.Archive.State.{
  Is, Triple-in_world, Triple-gets, Triple-set, write_manifest-At, Written,
}
use pgvolvra.Archive.History.{
  Recorded, Recorded-same, Records, Filed, Filed-append, last_chain, last_chain-cores, Unsealed,
}
use pgvolvra.Archive.Durable.{
  Covered, Backed, Listed, Durable, Durable-intro, Safe, Safe-intro, Triple-from,
}
use pgvolvra.Archive.Uploading.{written-Listed}
use pgvolvra.Archive.Push.{push_quietly-Durable}

-- The archive after a segment was recorded.
module _ (p : Platform) (a : Archive) (B : Assoc Bytes) (x : Segment) where
  abbrev grown : Archive
  grown = set_segments (a.man.segments ++ x ∷ []) (record a { cur = none })

  cores_grown : cores grown.man.segments ≡ cores a.man.segments ++ core x ∷ []
  cores_grown = map-append core a.man.segments (x ∷ [])

  Covered-grown : Covered p a B → Covered p grown B
  Covered-grown (inl z) = inl z
  Covered-grown (inr (tail, (body, named, f, d, e), fits)) = inr (
    tail ++ core x ∷ [],
    (
      body,
      named,
      f,
      d,
      cores_grown
          ∙ ap (λ cs. cs ++ core x ∷ []) e
          ∙ append_assoc (cores named.segments) tail (core x ∷ []),
    ),
    omega (arith, length-append {0} tail (core x ∷ []), length-append {0} a.man.segments (x ∷ [])),
  )

  Backed-grown :
      x.seq ≡ suc (length a.man.segments)
      → x.file ≡ segment_name (suc (length a.man.segments))
      → uploaded x ≡ false
      → Backed p a B
      → Backed p grown B
  Backed-grown number file absent b = record {
    numbered =
        Numbered-append 1 a.man.segments (x ∷ []) b.numbered
          (number ∙ omega arith, file ∙ ap segment_name (omega arith), tt);
    held =
        HoldsUploaded-append p B a.man.segments (x ∷ []) b.held
          ((λ u. absurd (ground (arith, u, absent))), tt);
    covered = Covered-grown b.covered;
    opened = λ name e. absurd (ground (arith, e));
  }

-- The chain of the last segment, or the empty text before the first.
chain-last :
    (p : Platform) (segs : List Segment) → chain_of (last? segs) ≡ last_chain p [] (cores segs)
chain-last p [] = refl
chain-last p (s ∷ segs) = sym (last_chain-cores p [] segs s)

module _ (p : Platform) (faithful : IsFaithful p) (hist : List Change) where
  module _ (a : Archive) (B D : Assoc Bytes) (b : Backed p a B) (l : Listed p hist a D)
      (name : Bytes) (open_is : a.cur ≡ some name) (some_change : 1 ≤ a.cur_count) where
    -- The changes of the open file become those of the new segment.
    Recorded-grown :
        (t : ℕ) → Recorded p hist (grown p a B (sealed p (record a { cur = none }) name t)) D
    unfolding sealed
    Recorded-grown t = record {
      sealed = l.recorded.sealed ++ l.recorded.unsealed;
      unsealed = [];
      whole = l.recorded.whole ∙ sym (append-nil _);
      filed =
          subst (λ cs. Filed p D [] cs (l.recorded.sealed ++ l.recorded.unsealed))
            (sym (map-append core a.man.segments (x ∷ [])))
            (Filed-append p D [] (cores a.man.segments) (core x) l.recorded.sealed
              l.recorded.unsealed l.recorded.filed new_records);
      open_file = refl;
    }
      where
        x : Segment
        x = sealed p (record a { cur = none }) name t

        held :
            Unsealed p D (some name) a.hashed a.cur_count a.cur_start a.cur_end l.recorded.unsealed
        held =
            subst
              (λ cur.
                Unsealed p D cur a.hashed a.cur_count a.cur_start a.cur_end l.recorded.unsealed)
              open_is l.recorded.open_file

        new_records :
            Records p D (last_chain p [] (cores a.man.segments)) (core x) l.recorded.unsealed
        new_records = record {
          in_file = held.0;
          hash = ap (digest p) held.1;
          count = held.2;
          some_change = some_change;
          starts = held.3;
          ends = held.4;
          follows = chain-last p a.man.segments;
          chained =
              ap (λ prev. digest p (prev ++ (b'|' ∷ digest p a.hashed)))
                (chain-last p a.man.segments);
        }

    Backed-sealed : (t : ℕ) → Backed p (grown p a B (sealed p (record a { cur = none }) name t)) B
    unfolding sealed
    Backed-sealed t =
        Backed-grown p a B (sealed p (record a { cur = none }) name t) (b.opened name open_is).1
          (b.opened name open_is).0 refl b

    record_segment-Durable :
        Triple
          (Is p (record a { cur = none }) B D)
          (record_segment p name)
          (λ _. Durable p hist)
          (Safe p)
    unfolding record_segment
    record_segment-Durable =
        Triple-bind _ _
          (Triple-weaken _ (Triple-in_world _ (now-At p B D) (record a { cur = none })) (λ s h. h)
            (λ _ s h. h) (λ s h. absurd h.1))
          λ t.
            Triple-set p (λ a. set_segments (a.man.segments ++ sealed p a name t ∷ []) a)
              (λ _. write_manifest p >> push_quietly p)
              (Triple-bind (write_manifest p) (λ _. push_quietly p)
                (Triple-weaken _ (write_manifest-At p (after t) B D) (λ s h. h) (λ _. written t)
                  (λ s (D', h, _, _). Safe-intro p (after t) B D' (Backed-sealed t) s h))
                λ _.
                  Triple-weaken _ (push_quietly-Durable p faithful hist) (λ s h. h) (λ _ s h. h)
                    (λ s h. (h.0, h.2)))
      where
        after : ℕ → Archive
        after t = grown p a B (sealed p (record a { cur = none }) name t)

        written : (t : ℕ) (s : Sys) → Written p (after t) B D s → Durable p hist s
        written t s (D', h, e, same) =
            Durable-intro p hist (after t) B D' (Backed-sealed t)
              (written-Listed p faithful hist (after t) D' e (
                Recorded-same p hist (after t) D D' same (Backed-sealed t).numbered
                  (λ n e. absurd (ground (arith, e))) (Recorded-grown t)))
              s h

    Safe-closed : (s : Sys) → Is p a B D s → Safe p s
    Safe-closed s h = Safe-intro p a B D b s h

    seal-Durable : Triple (Is p a B D) (seal p name) (λ _. Durable p hist) (Safe p)
    unfolding seal
    seal-Durable =
        Triple-bind _ _
          (Triple-weaken _ (Triple-in_world _ (touch-At p B D sync_file) a) (λ s h. h) (λ _ s h. h)
            Safe-closed)
          λ _.
            Triple-bind _ _
              (Triple-weaken _ (Triple-in_world _ (touch-At p B D close_file) a) (λ s h. h)
                (λ _ s h. h) Safe-closed)
              λ _.
                Triple-set p (λ a. record a { cur = none }) (λ _. record_segment p name)
                  record_segment-Durable

  nonzero : (n : ℕ) → (n == 0) ≡ false → 1 ≤ n
  nonzero zero e = absurd (ground (arith, e))
  nonzero (suc n) e = omega arith

  rotate_from-Durable :
      (a : Archive) (B D : Assoc Bytes)
      → Backed p a B
      → Listed p hist a D
      → (cur : Option Bytes) → a.cur ≡ cur
      → Triple (Is p a B D) (rotate_from p cur a.cur_count) (λ _. Durable p hist) (Safe p)
  unfolding rotate_from
  rotate_from-Durable a B D b l none e = Triple-pure tt (Durable-intro p hist a B D b l)
  rotate_from-Durable a B D b l (some name) e = elim (Bool-cases (a.cur_count == 0)) [
    | inl z ↦ rw z (Triple-pure tt (Durable-intro p hist a B D b l))
    | inr z ↦ rw z (seal-Durable a B D b l name e (nonzero a.cur_count z))
  ]

  -- A rotation keeps the history and the belief about the bucket; after an error the latter remains.
  pub rotate-Durable : Triple (Durable p hist) (rotate p) (λ _. Durable p hist) (Safe p)
  unfolding rotate
  rotate-Durable = Triple-from p hist _ λ a B D b l.
      Triple-gets p (λ a. a) (λ a. rotate_from p a.cur a.cur_count)
        (rotate_from-Durable a B D b l a.cur refl)
