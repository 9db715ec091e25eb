-- ===== src/Feed/Handled.antt =====
-- On what a message of the stream adds to the history (companion/stream.go, handle).
use pgvolvra.Base.{
  codes, ℕ, ◌≡◌, refl, sym, subst, Bool, true, false, Option, none, some, List, [], ◌∷◌, ◌++◌,
  append_assoc, Bytes, arith,
}
use pgvolvra.Exec.{Error, Exec, gets, throw, ◌>>=◌, ◌>>◌}
use pgvolvra.Exec.Laws.{After, After-weaken, Triple, Triple-bind, Triple-pure}
use pgvolvra.Format.{Change, Platform, IsFaithful}
use pgvolvra.Feed.Described.{
  Transaction, transaction_after, is_replay, IsLoss, IsInserted, IsUpdated, IsDeleted, IsTruncated,
  tables_of, IsRecorded,
}
use pgvolvra.Feed.Emitted.{Kept, Lost, Grown, append-Grown, none-Grown, emit-Grown}
use pgvolvra.Feed.{
  Tuple, Relation, Message, relation_message, begin_message, insert_message, update_message,
  delete_message, truncate_message, other_message, Feed, truncation, truncate_one, truncate_all,
  relation_of, insert_row, update_row, delete_row, handle_message, handle,
}

module _ (p : Platform) (faithful : IsFaithful p) (skip : ℕ) (rels : List (ℕ × Relation)) where
  module _ (tx : Transaction) where
    -- A test of the relation that the stream has learned.
    with_relation :
        {Q : Feed → Type 0} (hist : List Change) (n : ℕ)
        (k : Option Relation → Exec Feed (Unit {0}))
        → Triple
            (Kept p faithful skip rels tx hist)
            (k (relation_of n rels))
            (λ _. Q)
            (Lost p faithful skip rels)
        → Triple
            (Kept p faithful skip rels tx hist)
            (gets (λ st. relation_of n st.rels) >>= k)
            (λ _. Q)
            (Lost p faithful skip rels)
    with_relation {Q} hist n k t = record {
      at = λ st h.
          subst (λ rs. After (λ _. Q) (Lost p faithful skip rels) (k (relation_of n rs) st))
            (sym h.1.1) (t.at st h);
    }

    module _ (lsn : Bytes) where
      abbrev Gone : List ℕ → List Change → Type 0
      Gone ns = IsTruncated p tx lsn (tables_of p tx lsn rels ns)

      -- The truncations of the other tables behind those of one.
      truncated-then :
          (hist : List Change) (ns : List ℕ) (Described : List Change → Type 0) (c : Change)
          → ((later : List Change) → Gone ns later → Described (c ∷ later))
          → ((hist' : List Change)
              → Triple
                  (Kept p faithful skip rels tx hist')
                  (truncate_all p lsn ns)
                  (λ _. Grown p faithful skip rels tx hist' (Gone ns))
                  (Lost p faithful skip rels))
          → (st : Feed) → Kept p faithful skip rels tx (hist ++ c ∷ []) st
          → After
              (λ _. Grown p faithful skip rels tx hist Described)
              (Lost p faithful skip rels)
              (truncate_all p lsn ns st)
      truncated-then hist ns Described c joined rest st kept =
          After-weaken
            (λ _ s (later, kept, gone). (
              c ∷ later,
              subst (λ l. Kept p faithful skip rels tx l s) (append_assoc hist (c ∷ []) later) kept,
              joined later gone,
            ))
            (λ s h. h) (truncate_all p lsn ns st) ((rest (hist ++ c ∷ [])).at st kept)

      truncate_one-Grown :
          (hist : List Change) (ns : List ℕ) (o : Option Relation)
          → ((hist' : List Change)
              → Triple
                  (Kept p faithful skip rels tx hist')
                  (truncate_all p lsn ns)
                  (λ _. Grown p faithful skip rels tx hist' (Gone ns))
                  (Lost p faithful skip rels))
          → Triple
              (Kept p faithful skip rels tx hist)
              (truncate_one p lsn o >> truncate_all p lsn ns)
              (λ _.
                Grown p faithful skip rels tx hist
                  (IsTruncated p tx lsn (o ∷ tables_of p tx lsn rels ns)))
              (Lost p faithful skip rels)
      truncate_one-Grown hist ns none rest = record { at = λ st h. (rest hist).at st h }
      truncate_one-Grown hist ns (some rel) rest =
          Triple-bind (truncate_one p lsn (some rel)) (λ _. truncate_all p lsn ns)
            (record {
              at = λ st h.
                  append-Grown p faithful skip rels tx hist
                    (λ cs. (c : Change) × (cs ≡ c ∷ []) × IsLoss p tx lsn rel (codes "T") c)
                    (truncation p lsn rel st) st
                    (
                      truncation p lsn rel st,
                      refl,
                      ((refl, h.1.2, h.1.3, refl), refl, refl, refl, refl, refl, refl),
                    )
                    h;
            })
            λ _. record {
              at = λ st (new, kept, (c, one, loss)).
                  truncated-then hist ns _ c (λ later gone. (c, later, refl, loss, gone)) rest st
                    (subst (λ cs. Kept p faithful skip rels tx (hist ++ cs) st) one kept);
            }

      truncate_all-Grown :
          (ns : List ℕ) (hist : List Change)
          → Triple
              (Kept p faithful skip rels tx hist)
              (truncate_all p lsn ns)
              (λ _. Grown p faithful skip rels tx hist (Gone ns))
              (Lost p faithful skip rels)
      unfolding truncate_all
      truncate_all-Grown [] hist = Triple-pure tt (none-Grown p faithful skip rels tx hist)
      truncate_all-Grown (n ∷ ns) hist = record {
        at = λ st h.
            (with_relation hist n (λ o. truncate_one p lsn o >> truncate_all p lsn ns)
                (truncate_one-Grown hist ns (relation_of n rels) (truncate_all-Grown ns))).at
              st h;
      }

  abbrev pub is_relation : Message → Bool
  is_relation (relation_message _ _ _ _) = true
  is_relation _ = false

  module _ (pk_columns : ℕ → List Bytes) (tx : Transaction) (hist : List Change) (start : ℕ) where
    Triple-Lost :
        {Q : Unit {0} → Feed → Type 0} {e : Error}
        → Triple (Kept p faithful skip rels tx hist) (throw e) Q (Lost p faithful skip rels)
    Triple-Lost = record { at = λ st h. (h.0.0, h.0.2) }

    abbrev lsn : Bytes
    lsn = p.lsn_text start

    abbrev seen : Bool
    seen = is_replay skip start

    inserted :
        (n : ℕ) (t : Tuple) (o : Option Relation)
        → Triple
            (Kept p faithful skip rels tx hist)
            (insert_row p lsn n t o)
            (λ _. Grown p faithful skip rels tx hist (IsInserted p tx lsn seen t o))
            (Lost p faithful skip rels)
    inserted n t none = Triple-Lost
    inserted n t (some rel) = emit-Grown p faithful skip rels tx hist start rel _ _ _ _

    updated :
        (n : ℕ) (old t : Tuple) (o : Option Relation)
        → Triple
            (Kept p faithful skip rels tx hist)
            (update_row p lsn n old t o)
            (λ _. Grown p faithful skip rels tx hist (IsUpdated p tx lsn seen old t o))
            (Lost p faithful skip rels)
    updated n none t none = Triple-Lost
    updated n (some old) t none = Triple-Lost
    updated n none t (some rel) = emit-Grown p faithful skip rels tx hist start rel _ _ _ _
    updated n (some old) t (some rel) = emit-Grown p faithful skip rels tx hist start rel _ _ _ _

    deleted :
        (n : ℕ) (t : Tuple) (o : Option Relation)
        → Triple
            (Kept p faithful skip rels tx hist)
            (delete_row p lsn n t o)
            (λ _. Grown p faithful skip rels tx hist (IsDeleted p tx lsn seen t o))
            (Lost p faithful skip rels)
    deleted n t none = Triple-Lost
    deleted n t (some rel) = emit-Grown p faithful skip rels tx hist start rel _ _ _ _

    pub handle-Grown :
        (m : Message)
        → is_relation m ≡ false
        → Triple
            (Kept p faithful skip rels tx hist)
            (handle p pk_columns start (some m))
            (λ _.
              Grown p faithful skip rels
                (transaction_after m tx)
                hist
                (IsRecorded p tx lsn rels seen m))
            (Lost p faithful skip rels)
    unfolding handle handle_message
    handle-Grown (insert_message n t) e =
        with_relation tx hist n (insert_row p lsn n t) (inserted n t (relation_of n rels))
    handle-Grown (update_message n old t) e =
        with_relation tx hist n (update_row p lsn n old t) (updated n old t (relation_of n rels))
    handle-Grown (delete_message n t) e =
        with_relation tx hist n (delete_row p lsn n t) (deleted n t (relation_of n rels))
    handle-Grown (truncate_message ns) e = truncate_all-Grown tx lsn ns hist
    handle-Grown (begin_message xid t) e = record {
      at = λ st h.
          none-Grown p faithful skip rels (record { number = xid; committed = t }) hist
            (record st { xid = xid; commit_ts = t }) (h.0, (h.1.0, h.1.1, refl, refl));
    }
    handle-Grown other_message e = Triple-pure tt (none-Grown p faithful skip rels tx hist)
    handle-Grown (relation_message n schema name cols) e = absurd (ground (arith, e))

    -- A message of the stream, other than the description of a relation, that is handled without an
    -- error adds to the history what it is to be recorded as, in the transaction that was begun last and
    -- at the message's position: of an insert, update or delete of a known table one change with its
    -- letter, the table, the key's values and the rows of before and after, or one gap where the row has
    -- no value in the key's columns, and nothing where the archive had the position at the start; of a
    -- truncation one gap for each known table, at whatever position; of another message nothing. After
    -- an error, what is believed to be in the bucket still is.
    pub handle-history :
        (m : Message) (st : Feed)
        → is_relation m ≡ false
        → Kept p faithful skip rels tx hist st
        → After
            (λ _.
              Grown p faithful skip rels
                (transaction_after m tx)
                hist
                (IsRecorded p tx lsn rels seen m))
            (Lost p faithful skip rels)
            (handle p pk_columns start (some m) st)
    handle-history m st e h = (handle-Grown m e).at st h
