-- ===== src/Guard/Laws.antt =====
-- On what the guard of the slot leaves in the archive (companion/safety.go, Check).
use pgvolvra.Base.{
  ℕ, ◌≡◌, refl, ◌⊎◌, inl, inr, true, false, Option, none, some, List, [], ◌∷◌, ◌++◌, if◌then◌else◌,
}
use pgvolvra.Exec.{Error, throw, Exec, Outcome, ok, err, query, send_status, modify}
use pgvolvra.Exec.Laws.{After, Triple, Triple-bind, Triple-weaken, Triple-if, Triple-pure}
use pgvolvra.Format.{Change, Platform, IsFaithful}
use pgvolvra.World.{touch}
use pgvolvra.Archive.{Sys, in_world}
use pgvolvra.Archive.Writer.{append, rotate}
use pgvolvra.Archive.Durable.{Durable, Safe, touch-Durable}
use pgvolvra.Archive.Appending.{append-Durable}
use pgvolvra.Archive.Sealed.{Clean, rotate-At, touch-Clean}
use pgvolvra.Guard.{
  is_past, warns, set_warned, report_gap, advance, check_position, check_retained, SlotGuard,
  SlotRow, Guarding, on_sys, gap_change, open_valve, check_levels, check_row, check,
}

-- A record of a gap between two positions: marked as one, at the later of them, and no row's change.
abbrev pub IsGap : Platform → ℕ → ℕ → Change → Type 0
IsGap p confirmed current c =
    (c.gap ≡ true)
    × (c.from_lsn ≡ p.lsn_text confirmed)
    × (c.to_lsn ≡ p.lsn_text current)
    × (c.lsn ≡ p.lsn_text current)
    × (c.op ≡ [])
    × (c.table ≡ [])

module _ (p : Platform) (faithful : IsFaithful p) (g : SlotGuard) where
  -- The slot was not advanced so far, and the archive has the history.
  abbrev pub Held : List Change → Guarding → Type 0
  Held hist st = Durable p hist st.sys × (st.advanced ≡ none)

  -- After an error, too, the slot was not advanced.
  abbrev pub Stopped : Guarding → Type 0
  Stopped st = Safe p st.sys × (st.advanced ≡ none)

  After-on_sys :
      {A : Type 0} (Q : A → Sys → Type 0) (m : Exec Sys A) (st : Guarding)
      → st.advanced ≡ none
      → (x : Outcome A × Sys) → m st.sys ≡ x
      → After Q (Safe p) x
      → After (λ a st. Q a st.sys × (st.advanced ≡ none)) Stopped (on_sys m st)
  After-on_sys Q m st r (ok a, s) e h = rw e (h, r)
  After-on_sys Q m st r (err x, s) e h = rw e (h, r)

  Triple-on_sys :
      {A : Type 0} (P : Sys → Type 0) (Q : A → Sys → Type 0) (m : Exec Sys A)
      → Triple P m Q (Safe p)
      → Triple
          (λ st. P st.sys × (st.advanced ≡ none))
          (on_sys m)
          (λ a st. Q a st.sys × (st.advanced ≡ none))
          Stopped
  Triple-on_sys P Q m t = record { at = λ st h. After-on_sys Q m st h.1 _ refl (t.at st.sys h.0) }

  -- The slot was advanced to a position, and the archive has the gap up to it at the end of its
  -- history, in a sealed segment: no change is in an open one.
  abbrev pub Advanced : List Change → ℕ → Guarding → Type 0
  Advanced hist confirmed st =
      (current : ℕ) × (c : Change) × (st.advanced ≡ some current)
      × IsGap p confirmed current c
      × Clean p faithful (hist ++ c ∷ []) st.sys

  abbrev pub Checked : List Change → ℕ → Guarding → Type 0
  Checked hist confirmed st = Held hist st ⊎ Advanced hist confirmed st

  module _ (hist : List Change) (confirmed : ℕ) where
    valve-Advanced :
        (current : ℕ)
        → Triple
            (Held hist)
            (open_valve p g confirmed current)
            (λ _. Advanced hist confirmed)
            Stopped
    unfolding open_valve
    valve-Advanced current =
        Triple-bind _ _
          (Triple-on_sys (Durable p hist) (λ _. Durable p longer) (append p c)
            (append-Durable p faithful hist c))
          λ _.
            Triple-bind _ _
              (Triple-on_sys (Durable p longer) (λ _. Sealed) (rotate p)
                (rotate-At p faithful longer))
              λ _.
                Triple-bind (on_sys (report_gap p g)) (λ _. advance p g current)
                  (Triple-on_sys Sealed (λ _. Sealed) (report_gap p g) reported)
                  λ _.
                    Triple-bind (on_sys (in_world (touch send_status)))
                      (λ _. modify (λ st. record st { advanced = some current }))
                      (Triple-on_sys Sealed (λ _. Sealed) (in_world (touch send_status))
                        (touch-Clean p faithful longer send_status))
                      λ _. record {
                        at = λ st h. (current, c, refl, (refl, refl, refl, refl, refl, refl), h.0);
                      }
      where
        c : Change
        c = gap_change p g confirmed current

        longer : List Change
        longer = hist ++ c ∷ []

        Sealed : Sys → Type 0
        Sealed = Clean p faithful longer

        reported : Triple Sealed (report_gap p g) (λ _. Sealed) (Safe p)
        reported =
            Triple-if g.has_on_gap _ _ (touch-Clean p faithful longer query)
              (Triple-pure tt (λ s h. h))

    Triple-Stopped :
        {e : Error}
        → Triple {A = Unit {0}} (Held hist) (throw e) (λ _. Checked hist confirmed) Stopped
    Triple-Stopped = record { at = λ st h. ((h.0.0, h.0.2), h.1) }

    check_levels-Checked :
        (retained current : ℕ)
        → Triple
            (Held hist)
            (check_levels p g confirmed retained current)
            (λ _. Checked hist confirmed)
            Stopped
    unfolding check_levels
    check_levels-Checked retained current =
        Triple-if (is_past p g retained) (open_valve p g confirmed current)
          (if warns p g retained then set_warned p g true else set_warned p g false)
          (Triple-weaken _ (valve-Advanced current) (λ s h. h) (λ _ s h. inr h) (λ s h. h))
          (Triple-if (warns p g retained) (set_warned p g true) (set_warned p g false)
            (record { at = λ st h. inl h }) (record { at = λ st h. inl h }))

    check_row-Checked :
        (row : Option SlotRow)
        → Triple (Held hist) (check_row p g confirmed row) (λ _. Checked hist confirmed) Stopped
    check_row-Checked none = Triple-Stopped
    check_row-Checked (some record_) = read record_.retained
      where
        at_position :
            (retained : ℕ) (o : Option ℕ)
            → Triple
                (Held hist)
                (check_position p g confirmed retained o)
                (λ _. Checked hist confirmed)
                Stopped
        at_position retained none = Triple-Stopped
        at_position retained (some current) = check_levels-Checked retained current

        read :
            (o : Option ℕ)
            → Triple
                (Held hist)
                (check_retained p g confirmed record_.current o)
                (λ _. Checked hist confirmed)
                Stopped
        read none = Triple-Stopped
        read (some retained) = at_position retained (p.parse_lsn record_.current)

    pub check-Checked :
        (row : Option SlotRow)
        → Triple (Held hist) (check p g confirmed row) (λ _. Checked hist confirmed) Stopped
    unfolding check
    check-Checked row =
        Triple-bind (on_sys (in_world (touch query))) (λ _. check_row p g confirmed row)
          (Triple-on_sys (Durable p hist) (λ _. Durable p hist) (in_world (touch query))
            (touch-Durable p hist query))
          λ _. check_row-Checked row

    -- The guard that succeeds has left the history and the slot alone, or it has advanced the slot, and
    -- then the history ends with a record that is marked as a gap, runs from the confirmed position to
    -- that of the slot and stands at the latter; and all of it is in sealed segments. Where the guard
    -- fails, at whatever call, the slot was not advanced.
    pub check-gap :
        (row : Option SlotRow) (st : Guarding)
        → Held hist st
        → After (λ _. Checked hist confirmed) Stopped (check p g confirmed row st)
    check-gap row st h = (check-Checked row).at st h
