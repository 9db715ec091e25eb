-- ===== src/Feed/Emitted.antt =====
-- On what a row's change adds to the history (companion/stream.go, emit, replayed).
use pgvolvra.Base.{
  ℕ, suc, ◌≡◌, refl, sym, subst, Bool, true, false, Option, none, some, List, [], ◌∷◌, ◌++◌,
  append-nil, Bytes,
}
use pgvolvra.Exec.{Exec, Outcome, ok, err}
use pgvolvra.Exec.Laws.{After, After-weaken, After-if, Triple, Triple-bind}
use pgvolvra.Format.{Change, Platform, IsFaithful}
use pgvolvra.Archive.{Sys}
use pgvolvra.Archive.Writer.{append}
use pgvolvra.Archive.Durable.{Durable, Safe}
use pgvolvra.Archive.Appending.{append-Durable}
use pgvolvra.Feed.Described.{
  Transaction, is_replay, IsImage, IsKeyOf, key_of-IsKeyOf, IsKeyed, IsEmitted,
}
use pgvolvra.Feed.{
  image, Row, Relation, Feed, in_sys, replayed, keyless, row_change, emit_new, emit_keyed, emit,
  key_of,
}

pub After-in_sys :
    {A : Type 0} (Q : A → Sys → Type 0) (E : Sys → Type 0) (R : Feed → Type 0) (m : Exec Sys A)
    (st : Feed)
    → ((s : Sys) → R (record st { sys = s }))
    → (x : Outcome A × Sys) → m st.sys ≡ x
    → After Q E x
    → After (λ a st. Q a st.sys × R st) (λ st. E st.sys) (in_sys m st)
After-in_sys Q E R m st r (ok a, s) e h = rw e (h, r s)
After-in_sys Q E R m st r (err x, s) e h = rw e h

module _ (p : Platform) (faithful : IsFaithful p) (skip : ℕ) (rels : List (ℕ × Relation)) where
  -- The archive has the history, and the stream this transaction, these relations and this position to
  -- skip to.
  abbrev pub Kept : Transaction → List Change → Feed → Type 0
  Kept tx hist st =
      Durable p hist st.sys
      × ((st.skip_to ≡ skip)
          × (st.rels ≡ rels)
          × (st.xid ≡ tx.number)
          × (st.commit_ts ≡ tx.committed))

  abbrev pub Lost : Feed → Type 0
  Lost st = Safe p st.sys

  -- The history has more changes, and these are as described.
  abbrev pub Grown : Transaction → List Change → (List Change → Type 0) → Feed → Type 0
  Grown tx hist Described st = (new : List Change) × Kept tx (hist ++ new) st × Described new

  module _ (tx : Transaction) where
    pub append-Grown :
        (hist : List Change) (Described : List Change → Type 0) (c : Change) (st : Feed)
        → Described (c ∷ [])
        → Kept tx hist st
        → After (λ _. Grown tx hist Described) Lost (in_sys (append p c) st)
    append-Grown hist Described c st described h =
        After-weaken (λ _ s kept. (c ∷ [], kept, described)) (λ s h. h) (in_sys (append p c) st)
          (After-in_sys (λ _. Durable p (hist ++ c ∷ [])) (Safe p)
            (λ st.
              (st.skip_to ≡ skip)
              × (st.rels ≡ rels)
              × (st.xid ≡ tx.number)
              × (st.commit_ts ≡ tx.committed))
            (append p c) st (λ s. h.1) _ refl ((append-Durable p faithful hist c).at st.sys h.0))

    pub none-Grown :
        (hist : List Change) (st : Feed) → Kept tx hist st → Grown tx hist (λ cs. cs ≡ []) st
    none-Grown hist st h = ([], subst (λ l. Kept tx l st) (sym (append-nil hist)) h, refl)

    replayed-is :
        (hist : List Change) (start : ℕ)
        → Triple
            (Kept tx hist)
            (replayed p (p.lsn_text start))
            (λ seen st. (seen ≡ is_replay skip start) × Kept tx hist st)
            Lost
    unfolding replayed
    replayed-is hist start = record {
      at = λ st h.
          rw (faithful.parse-text start, h.1.0)
            (After-if _ _ (is_replay skip start) _ _
              (λ e. (sym e, (h.0, (refl, h.1.1, h.1.2, h.1.3))))
              (λ e. (sym e, (h.0, (refl, h.1.1, h.1.2, h.1.3)))));
    }

    module _ (hist : List Change) (lsn : Bytes) (rel : Relation) (op : Bytes)
        (old new : Option Row) where
      image-IsImage : (o : Option Row) → IsImage p tx lsn rel o (image p o)
      image-IsImage none = refl
      image-IsImage (some row) = refl

      emit_fresh-Grown :
          (source key : Row) (st : Feed)
          → IsKeyOf rel.pk_cols source key
          → Kept tx hist st
          → After
              (λ _. Grown tx hist (λ cs.
                (k : Row) × (c : Change) × (cs ≡ c ∷ [])
                × IsKeyOf rel.pk_cols source k
                × IsKeyed p tx lsn rel op k old new c))
              Lost
              (emit_new p false lsn rel op key old new st)
      unfolding emit_new
      emit_fresh-Grown source [] st of_source h =
          append-Grown hist _ (keyless p lsn rel st) st
            (
              [],
              keyless p lsn rel st,
              refl,
              of_source,
              ((refl, h.1.2, h.1.3, refl), refl, refl, refl, refl, refl, refl),
            )
            h
      emit_fresh-Grown source (v ∷ key) st of_source h =
          let counted = record st { changes = suc st.changes } in
          append-Grown hist _ (row_change p lsn rel op (v ∷ key) old new counted) counted
            (
              v ∷ key,
              row_change p lsn rel op (v ∷ key) old new counted,
              refl,
              of_source,
              ((refl, h.1.2, h.1.3, refl), refl, refl, image-IsImage old, image-IsImage new, refl),
            )
            h

      emit_new-Grown :
          (source : Row) (seen : Bool) (st : Feed)
          → Kept tx hist st
          → After
              (λ _. Grown tx hist (IsEmitted p tx lsn rel seen op source old new))
              Lost
              (emit_new p seen lsn rel op (key_of rel.pk_cols source) old new st)
      unfolding emit_new
      emit_new-Grown source true st h = none-Grown hist st h
      emit_new-Grown source false st h =
          emit_fresh-Grown source (key_of rel.pk_cols source) st (key_of-IsKeyOf rel.pk_cols source)
            h

    pub emit-Grown :
        (hist : List Change) (start : ℕ) (rel : Relation) (op : Bytes) (source : Row)
        (old new : Option Row)
        → Triple
            (Kept tx hist)
            (emit p (p.lsn_text start) rel op source old new)
            (λ _.
              Grown tx hist
                (IsEmitted p tx (p.lsn_text start) rel (is_replay skip start) op source old new))
            Lost
    unfolding emit emit_keyed
    emit-Grown hist start rel op source old new = Triple-bind _ _ (replayed-is hist start) λ seen.
        record {
          at = λ st h.
              subst
                (λ seen'.
                  After
                    (λ _.
                      Grown tx hist (IsEmitted p tx (p.lsn_text start) rel seen' op source old new))
                    Lost
                    (emit_new p seen (p.lsn_text start) rel op (key_of rel.pk_cols source) old new
                      st))
                h.0 (emit_new-Grown hist (p.lsn_text start) rel op old new source seen st h.1);
        }
