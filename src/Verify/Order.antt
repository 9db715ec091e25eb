-- ===== src/Verify/Order.antt =====
-- The order of segments by the texts of their positions (companion/verify.go, VerifyArchive and
-- gapRecorded).
use pgvolvra.Base.{
  ℕ, suc, ◌<◌, ◌≡◌, refl, ◌⊎◌, ◌↔◌, inl, inr, Bool, true, false, Option, none, some, List, [], ◌∷◌,
  Bytes, sym, subst, not, ◌&&◌, if◌then◌else◌, any_iff, AnyOf, arith, lt_bytes, is_empty,
}
use pgvolvra.Exec.{Outcome, ok, err}
use pgvolvra.Format.{Change, Segment, Platform}
use pgvolvra.Lines.{Stream, scan}
use pgvolvra.Source.{Source, open_source}
use pgvolvra.Verify.{
  Finding, found_in, out_of_order, holds_gap, gap_recorded, order_findings, is_gap,
}

-- The text sorts before the other: it is a beginning of it, or smaller at the first byte in which they
-- differ.
abbrev pub Sorts : Bytes → Bytes → Type 0
Sorts [] [] = ⊥
Sorts (x ∷ xs) [] = ⊥
Sorts [] (y ∷ ys) = Unit
Sorts (x ∷ xs) (y ∷ ys) = (x < y) ⊎ ((x ≡ y) × Sorts xs ys)

lt_bytes_iff : (a b : Bytes) → (lt_bytes a b ≡ true) ↔ Sorts a b
unfolding lt_bytes
lt_bytes_iff [] [] = ground arith
lt_bytes_iff (x ∷ xs) [] = ground arith
lt_bytes_iff [] (y ∷ ys) = ((λ _. tt), λ _. refl)
lt_bytes_iff (x ∷ xs) (y ∷ ys) = ground (arith, lt_bytes_iff xs ys)

module _ (p : Platform) (src : Source) (segs : List Segment) where
  -- One of the records is marked as a gap.
  abbrev pub TellsGap : Bytes → Type 0
  TellsGap line = (c : Change) × (p.decode_change line ≡ some c) × (c.gap ≡ true)

  -- The member opens, and one of its lines tells of a gap.
  abbrev pub GapIn : Bytes → Type 0
  GapIn name = (f : Stream) × (open_source src name ≡ ok f) × AnyOf TellsGap (scan f).lines

  -- A gap is recorded in the segment of the number, or in the one before it.
  abbrev pub GapAt : ℕ → Type 0
  GapAt seq = AnyOf (λ s. ((s.seq ≡ seq) ⊎ (suc s.seq ≡ seq)) × GapIn s.file) segs

  -- The segment's start, as a text, does not sort before the end of the one before it, unless one of
  -- them is missing or a gap is recorded there.
  abbrev pub Ordered : Segment → Bytes → Type 0
  Ordered s prev_end =
      (prev_end ≡ []) ⊎ (s.start_lsn ≡ []) ⊎ GapAt s.seq ⊎ ¬ (Sorts s.start_lsn prev_end)

  is_gap-TellsGap :
      (o : Option Change) → (is_gap p o ≡ true) ↔ ((c : Change) × (o ≡ some c) × (c.gap ≡ true))
  is_gap-TellsGap none =
      ((λ e. absurd (ground (arith, e))), λ (c, e, _). absurd (ground (arith, e)))
  is_gap-TellsGap (some c) =
      ((λ e. (c, refl, e)), λ (d, e, g). subst (λ o. is_gap p o ≡ true) (sym e) g)

  holds_gap_iff :
      (o : Outcome Stream)
      → (holds_gap p o ≡ true) ↔ ((f : Stream) × (o ≡ ok f) × AnyOf TellsGap (scan f).lines)
  unfolding holds_gap
  holds_gap_iff (err e) =
      ((λ e. absurd (ground (arith, e))), λ (f, e, _). absurd (ground (arith, e)))
  holds_gap_iff (ok f) =
      let lines = any_iff _ TellsGap (λ l. is_gap-TellsGap (p.decode_change l)) (scan f).lines in
      (
        (λ e. (f, refl, lines.0 e)),
        λ (g, e, told).
            subst (λ o. holds_gap p o ≡ true) (sym e)
              ((any_iff _ TellsGap (λ l. is_gap-TellsGap (p.decode_change l)) (scan g).lines).1
                told),
      )

  gap_recorded_iff : (seq : ℕ) → (gap_recorded p src segs seq ≡ true) ↔ GapAt seq
  unfolding gap_recorded
  gap_recorded_iff seq =
      any_iff _ _ (λ s. ground (arith, holds_gap_iff (open_source src s.file))) segs

-- The tests of the order, one after the other.
ordered_iff :
    (prev_end start : Bytes) (gap sorts : Bool) (G S : Type 0)
    → (gap ≡ true) ↔ G
    → (sorts ≡ true) ↔ S
    → ((not (is_empty prev_end) && not (is_empty start) && not gap && sorts) ≡ false)
      ↔ ((prev_end ≡ []) ⊎ (start ≡ []) ⊎ G ⊎ ¬ S)
ordered_iff [] start gap sorts G S g s = ((λ _. inl refl), λ _. refl)
ordered_iff (x ∷ xs) [] gap sorts G S g s = ((λ _. inr (inl refl)), λ _. refl)
ordered_iff (x ∷ xs) (y ∷ ys) true sorts G S g s = ((λ _. inr (inr (inl (g.0 refl)))), λ _. refl)
ordered_iff (x ∷ xs) (y ∷ ys) false false G S g s =
    ((λ _. inr (inr (inr (λ b. absurd (ground (arith, s.1 b)))))), λ _. refl)
ordered_iff (x ∷ xs) (y ∷ ys) false true G S g s = (
  (λ e. absurd (ground (arith, e))),
  λ o. elim o [
    | inl e ↦ absurd (ground (arith, e))
    | inr (inl e) ↦ absurd (ground (arith, e))
    | inr (inr (inl gap)) ↦ absurd (ground (arith, g.1 gap))
    | inr (inr (inr late)) ↦ absurd (late (s.0 refl))
  ],
)

none_found : (b : Bool) (f : Finding) → ((if b then f ∷ [] else []) ≡ []) ↔ (b ≡ false)
none_found true f = ((λ e. absurd (ground (arith, e))), λ e. absurd (ground (arith, e)))
none_found false f = ((λ _. refl), λ _. refl)

module _ (p : Platform) (src : Source) (segs : List Segment) where
  pub order_findings_iff :
      (s : Segment) (prev_end : Bytes)
      → (order_findings p src segs s prev_end ≡ []) ↔ Ordered p src segs s prev_end
  unfolding order_findings
  order_findings_iff s prev_end =
      let tests =
        ordered_iff prev_end s.start_lsn (gap_recorded p src segs s.seq)
          (lt_bytes s.start_lsn prev_end) _ _ (gap_recorded_iff p src segs s.seq)
          (lt_bytes_iff s.start_lsn prev_end) in
      let found = none_found _ (found_in s (out_of_order s.start_lsn prev_end)) in
      ((λ e. tests.0 (found.0 e)), λ o. found.1 (tests.1 o))
