-- ===== src/Feed/Account.antt =====
-- The account of what the loop of the stream acknowledges and the guard advances to
-- (companion/stream.go, Run).
use pgvolvra.Base.{
  ℕ, ◌≤◌, ◌≡◌, subst, ◌∙◌, ap, ◌⊎◌, some, List, [], ◌∷◌, ◌++◌, append_assoc, Bytes, All, All-map,
}
use pgvolvra.Format.{Change, Platform, IsFaithful}
use pgvolvra.Archive.Durable.{Durable, Safe}
use pgvolvra.Feed.Reported.{Kept}
use pgvolvra.Feed.Run.{Acked, Streaming}
use pgvolvra.Guard.Laws.{IsGap}

module _ (p : Platform) (faithful : IsFaithful p) (start : ℕ) where
  -- The position that was acknowledged last, or the first one of all.
  abbrev pub last_acked : List Acked → ℕ
  last_acked [] = start
  last_acked (a ∷ before) = a.position

  -- At the time of the update the archive had a beginning of the history durably; and the position is
  -- that of the update before, or one that the archive had everything up to at that time.
  abbrev pub Justified : List Change → ℕ → Acked → Type 0
  Justified hist before a =
      (upto : List Change) × (later : List Change) × (hist ≡ upto ++ later)
      × Durable p upto a.state
      × ((a.position ≡ before)
          ⊎ ((lsn : Bytes) × (p.parse_lsn lsn ≡ some a.position)
              × Kept p faithful upto start a.state lsn))

  -- All the updates, the last one first, are justified, and none goes back.
  abbrev pub AllJustified : List Change → List Acked → Type 0
  AllJustified hist [] = Unit
  AllJustified hist (a ∷ before) =
      Justified hist (last_acked before) a
      × (last_acked before ≤ a.position)
      × AllJustified hist before

  -- The history has the gap up to the position.
  abbrev pub Bridged : List Change → ℕ → Type 0
  Bridged hist pos =
      (confirmed : ℕ) × (c : Change) × (before : List Change) × (after : List Change) × IsGap p
        confirmed pos c
      × (hist ≡ before ++ c ∷ after)

  -- All that was acknowledged is justified and in order, and all that the slot was advanced over is
  -- in the history as gaps.
  abbrev pub Accounted : List Change → Streaming → Type 0
  Accounted hist st =
      (st.acked ≡ last_acked st.acked_all)
      × AllJustified hist st.acked_all
      × All (Bridged hist) st.advanced_all

  AllJustified-append :
      (hist more : List Change) (acks : List Acked)
      → AllJustified hist acks
      → AllJustified (hist ++ more) acks
  AllJustified-append hist more [] h = tt
  AllJustified-append hist more (a ∷ before) ((upto, later, e, d, why), le, rest) = (
    (upto, later ++ more, ap (λ l. l ++ more) e ∙ append_assoc upto later more, d, why),
    le,
    AllJustified-append hist more before rest,
  )

  Bridged-append :
      (hist more : List Change) (pos : ℕ) → Bridged hist pos → Bridged (hist ++ more) pos
  Bridged-append hist more pos (confirmed, c, before, after, is_gap, e) = (
    confirmed,
    c,
    before,
    after ++ more,
    is_gap,
    ap (λ l. l ++ more) e ∙ append_assoc before (c ∷ after) more,
  )

  pub Accounted-append :
      (hist more : List Change) (st : Streaming) → Accounted hist st → Accounted (hist ++ more) st
  Accounted-append hist more st (last, all, bridged) = (
    last,
    AllJustified-append hist more st.acked_all all,
    All-map (λ pos. Bridged-append hist more pos) st.advanced_all bridged,
  )

  module _ (first : List Change) where
    -- The archive has the first history with some changes after it.
    abbrev pub Streams : Streaming → Type 0
    Streams st =
        (new : List Change) × Durable p (first ++ new) st.feed.sys × Accounted (first ++ new) st

    -- After an error.
    abbrev pub Broken : Streaming → Type 0
    Broken st = (new : List Change) × Safe p st.feed.sys × Accounted (first ++ new) st

    -- More history, with the same account.
    pub Streams-more :
        (new more : List Change) (st : Streaming)
        → Durable p ((first ++ new) ++ more) st.feed.sys
        → Accounted ((first ++ new) ++ more) st
        → Streams st
    Streams-more new more st d a = (
      new ++ more,
      subst (λ l. Durable p l st.feed.sys) (append_assoc first new more) d,
      subst (λ l. Accounted l st) (append_assoc first new more) a,
    )
