-- ===== src/Archive/Appending.antt =====
-- On the appending of changes and the closing (companion/archive.go, Append, Close).
use pgvolvra.Base.{
  if◌then◌else◌, All, ℕ, suc, ◌+◌, ◌≡◌, refl, sym, ◌∙◌, ap, subst, ◌≢◌, Option, none, some, true,
  List, [], ◌∷◌, ◌++◌, append_assoc, append-nil, length, length-append, Bytes, Assoc, lookup,
  lookup-insert_self, insert, arith, get_text, lookup-insert_ne, leb,
}
use mathlib.Core.Option.{some-injective}
use pgvolvra.Exec.{gets, ◌>>=◌}
use pgvolvra.Exec.Laws.{After, Triple, Triple-bind, Triple-weaken, Triple-pure, Triple-if}
use pgvolvra.Format.{Change, Platform, IsFaithful}
use pgvolvra.Format.Names.{manifest_name, segment_name, segment_name-ne-manifest_name}
use pgvolvra.World.Laws.{create-At, write_end-At, extended}
use pgvolvra.Archive.{is_empty, Sys, Archive, create_segment, open_segment}
use pgvolvra.Archive.Writer.{
  write_record, counted, open_if, ensure_open, rotate_full, append_to, append, close,
}
use pgvolvra.Archive.Segments.{cores}
use pgvolvra.Archive.State.{Is, Triple-in_world, Triple-gets, Triple-set}
use pgvolvra.Archive.History.{render, render-append, Filed-same, Numbered-insert, Unsealed}
use pgvolvra.Archive.Positions.{first_lsn-append, last_lsn-append}
use pgvolvra.Archive.Durable.{Backed, Listed, Durable, Durable-intro, Safe, Safe-intro, Triple-from}
use pgvolvra.Archive.Uploading.{pure-Durable}
use pgvolvra.Archive.Push.{push_remote-Durable}
use pgvolvra.Archive.Rotation.{rotate-Durable}

manifest-ne-segment : (n : ℕ) → manifest_name ≢ segment_name n
manifest-ne-segment n e = segment_name-ne-manifest_name n (sym e)

module _ (p : Platform) (faithful : IsFaithful p) (hist : List Change) where
  module _ (a : Archive) (B D : Assoc Bytes) (b : Backed p a B) (l : Listed p hist a D) where
    abbrev next_seq : ℕ
    next_seq = length a.man.segments + 1

    abbrev renumbered : Archive
    renumbered = record a { cur_seq = next_seq }

    abbrev opened_next : Archive
    opened_next = record renumbered {
      cur = some (segment_name next_seq);
      cur_count = 0;
      cur_bytes = 0;
      cur_start = [];
      cur_end = [];
      hashed = [];
    }

    Backed-renumbered : a.cur ≡ none → Backed p renumbered B
    Backed-renumbered closed = record {
      numbered = b.numbered;
      held = b.held;
      covered = b.covered;
      opened = λ name e. absurd (ground (arith, closed, e));
    }

    Listed-renumbered : Listed p hist renumbered D
    Listed-renumbered = record {
      names = l.names;
      marks = l.marks;
      recorded = record {
        sealed = l.recorded.sealed;
        unsealed = l.recorded.unsealed;
        whole = l.recorded.whole;
        filed = l.recorded.filed;
        open_file = l.recorded.open_file;
      };
    }

    Backed-opened : Backed p opened_next B
    Backed-opened = record {
      numbered = b.numbered;
      held = b.held;
      covered = b.covered;
      opened = λ name e. (sym (some-injective _ _ e) ∙ ap segment_name (omega arith), omega arith);
    }

    Listed-opened : a.cur ≡ none → Listed p hist opened_next (insert (segment_name next_seq) [] D)
    Listed-opened closed = record {
      names = (
        l.names.0,
        l.names.1,
        lookup-insert_ne (segment_name next_seq) manifest_name [] D (manifest-ne-segment next_seq)
            ∙ l.names.2,
        l.names.3,
        l.names.4,
      );
      marks = l.marks;
      recorded = record {
        sealed = l.recorded.sealed;
        unsealed = [];
        whole = l.recorded.whole ∙ ap (λ cs. l.recorded.sealed ++ cs) nothing_unsealed;
        filed =
            Filed-same p D _ [] _ l.recorded.sealed
              (Numbered-insert D next_seq [] 1 a.man.segments (omega arith) b.numbered)
              l.recorded.filed;
        open_file = (lookup-insert_self (segment_name next_seq) [] D, refl, refl, refl, refl);
      };
    }
      where
        nothing_unsealed : l.recorded.unsealed ≡ []
        nothing_unsealed =
            subst
              (λ cur.
                Unsealed p D cur a.hashed a.cur_count a.cur_start a.cur_end l.recorded.unsealed)
              closed l.recorded.open_file

    open_segment-Durable :
        a.cur ≡ none → Triple (Is p a B D) (open_segment p) (λ _. Durable p hist) (Durable p hist)
    unfolding open_segment
    open_segment-Durable closed =
        Triple-set p (λ a. record a { cur_seq = length a.man.segments + 1 })
          (λ _. gets (λ s. s.arch.cur_seq) >>= create_segment p)
          (Triple-gets p (λ a. a.cur_seq) (create_segment p)
            (Triple-bind _ _
              (Triple-weaken _
                (Triple-in_world _ (create-At p B D (segment_name next_seq)) renumbered) (λ s h. h)
                (λ _ s h. h)
                (Durable-intro p hist renumbered B D (Backed-renumbered closed) Listed-renumbered))
              λ _. record {
                at = λ s h.
                    Durable-intro p hist opened_next B (insert (segment_name next_seq) [] D)
                      Backed-opened (Listed-opened closed) _ (ap reopen h.0, h.1);
              }))
      where
        reopen : Archive → Archive
        reopen a = record a {
          cur = some (segment_name next_seq);
          cur_count = 0;
          cur_bytes = 0;
          cur_start = [];
          cur_end = [];
          hashed = [];
        }

    ensure_open-from :
        (cur : Option Bytes)
        → a.cur ≡ cur
        → Triple (Is p a B D) (open_if p cur) (λ _. Durable p hist) (Durable p hist)
    unfolding open_if
    ensure_open-from none closed = open_segment-Durable closed
    ensure_open-from (some name) e = pure-Durable p faithful hist a B D b l

  ensure_open-Durable :
      Triple (Durable p hist) (ensure_open p) (λ _. Durable p hist) (Durable p hist)
  unfolding ensure_open
  ensure_open-Durable =
      Triple-from p hist _
        λ a B D b l. Triple-gets p (λ a. a.cur) (open_if p) (ensure_open-from a B D b l a.cur refl)

  module _ (c : Change) where
    abbrev line : Bytes
    line = p.encode_change c ++ b'\n' ∷ []

    module _ (a : Archive) (B D : Assoc Bytes) (b : Backed p a B) (l : Listed p hist a D)
        (name : Bytes) (open_is : a.cur ≡ some name) where
      not_manifest : manifest_name ≢ name
      not_manifest e = manifest-ne-segment _ (e ∙ (b.opened name open_is).0)

      Backed-counted : Backed p (counted p c line a) B
      Backed-counted = record {
        numbered = b.numbered;
        held = b.held;
        covered = b.covered;
        opened = b.opened;
      }

      held : Unsealed p D (some name) a.hashed a.cur_count a.cur_start a.cur_end l.recorded.unsealed
      held =
          subst
            (λ cur. Unsealed p D cur a.hashed a.cur_count a.cur_start a.cur_end l.recorded.unsealed)
            open_is l.recorded.open_file

      longer :
          (text : Bytes)
          → text ≡ render p l.recorded.unsealed
          → text ++ line ≡ render p (l.recorded.unsealed ++ c ∷ [])
      longer text e =
          ap (λ t. t ++ line) e
          ∙ ap (λ t. render p l.recorded.unsealed ++ t) (sym (append-nil line))
          ∙ sym (render-append p l.recorded.unsealed (c ∷ []))

      Listed-counted : Listed p (hist ++ c ∷ []) (counted p c line a) (extended p B D name line)
      Listed-counted = record {
        names = (
          l.names.0,
          l.names.1,
          lookup-insert_ne name manifest_name (get_text name D ++ line) D not_manifest ∙ l.names.2,
          l.names.3,
          l.names.4,
        );
        marks = l.marks;
        recorded = record {
          sealed = l.recorded.sealed;
          unsealed = l.recorded.unsealed ++ c ∷ [];
          whole =
              ap (λ cs. cs ++ c ∷ []) l.recorded.whole
              ∙ append_assoc l.recorded.sealed l.recorded.unsealed (c ∷ []);
          filed = Filed-same p D _ [] _ l.recorded.sealed other_files l.recorded.filed;
          open_file =
              subst
                (λ cur.
                  Unsealed p (extended p B D name line) cur (a.hashed ++ line) (a.cur_count + 1)
                    (if is_empty a.cur_start then c.lsn else a.cur_start) c.lsn
                    (l.recorded.unsealed ++ c ∷ []))
                (sym open_is)
                (
                  lookup-insert_self name (get_text name D ++ line) D ∙ ap some (longer _ text_is),
                  longer a.hashed held.1,
                  omega (arith, held.2, length-append {0} l.recorded.unsealed (c ∷ [])),
                  ap (λ start. if is_empty start then c.lsn else start) held.3
                      ∙ sym (first_lsn-append l.recorded.unsealed c),
                  sym (last_lsn-append [] l.recorded.unsealed c),
                );
        };
      }
        where
          text_is : get_text name D ≡ render p l.recorded.unsealed
          text_is = ground (arith, held.0)

          other_files :
              All
                (λ s. lookup s.file (extended p B D name line) ≡ lookup s.file D)
                (cores a.man.segments)
          other_files =
              subst
                (λ n.
                  All (λ s. lookup s.file (insert n (get_text name D ++ line) D) ≡ lookup s.file D)
                    (cores a.man.segments))
                (sym (b.opened name open_is).0)
                (Numbered-insert D (suc (length a.man.segments)) _ 1 a.man.segments (omega arith)
                  b.numbered)

    rotate_full-Durable :
        Triple
          (Durable p (hist ++ c ∷ []))
          (gets (λ s. s.arch) >>= rotate_full p)
          (λ _. Durable p (hist ++ c ∷ []))
          (Safe p)
    unfolding rotate_full
    rotate_full-Durable = record {
      at = λ s h.
          (Triple-if (leb s.arch.max_bytes s.arch.cur_bytes) _ _
              (rotate-Durable p faithful (hist ++ c ∷ [])) (Triple-pure tt (λ s h. h))).at
            s h;
    }

    append_to-Durable :
        (a : Archive) (B D : Assoc Bytes)
        → Backed p a B
        → Listed p hist a D
        → (cur : Option Bytes) → a.cur ≡ cur
        → Triple (Is p a B D) (append_to p c line cur) (λ _. Durable p (hist ++ c ∷ [])) (Safe p)
    unfolding append_to write_record
    append_to-Durable a B D b l none e = record { at = Safe-intro p a B D b }
    append_to-Durable a B D b l (some name) e =
        Triple-bind _ _
          (Triple-weaken _ (Triple-in_world _ (write_end-At p B D name line) a) (λ s h. h)
            (λ _ s h. h) (λ s (e, (n, h)). Safe-intro p a B _ b s (e, h)))
          λ _.
            Triple-set p (counted p c line) (λ _. gets (λ s. s.arch) >>= rotate_full p)
              (Triple-weaken _ rotate_full-Durable
                (Durable-intro p (hist ++ c ∷ []) (counted p c line a) B _
                  (Backed-counted a B D b l name e) (Listed-counted a B D b l name e))
                (λ _ s h. h) (λ s h. h))

    -- A change that was appended is the last of the history; after an error the belief about the
    -- bucket is still true.
    pub append-Durable :
        Triple (Durable p hist) (append p c) (λ _. Durable p (hist ++ c ∷ [])) (Safe p)
    unfolding append
    append-Durable =
        Triple-bind _ _
          (Triple-weaken _ ensure_open-Durable (λ s h. h) (λ _ s h. h) (λ s h. (h.0, h.2)))
          λ _. Triple-from p hist _ λ a B D b l.
            Triple-gets p (λ a. a.cur) (append_to p c line) (append_to-Durable a B D b l a.cur refl)

  pub close-Durable : Triple (Durable p hist) (close p) (λ _. Durable p hist) (Safe p)
  unfolding close
  close-Durable = Triple-bind _ _ (rotate-Durable p faithful hist) λ _.
      Triple-weaken _ (push_remote-Durable p faithful hist true) (λ s h. h) (λ _ s h. h)
        (λ s h. (h.0, h.2))

  -- A change that was appended without an error is the last one of the history, rotation or not.
  -- After an error, what is believed to be in the bucket still is.
  pub append-history :
      (c : Change) (s : Sys)
      → Durable p hist s
      → After (λ _. Durable p (hist ++ c ∷ [])) (Safe p) (append p c s)
  append-history c s h = (append-Durable c).at s h
