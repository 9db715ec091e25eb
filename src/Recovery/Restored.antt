-- ===== src/Recovery/Restored.antt =====
-- Restore from a directory that the archive writer left.
use pgvolvra.Base.{
  ℕ, suc, ◌+◌, ◌≡◌, refl, sym, ◌∙◌, ap, subst, Bool, true, false, Option, none, some, List, [], ◌∷◌,
  ◌++◌, map, append-nil, append_assoc, Bytes, Assoc, All, All-split, arith, length, length-append,
  if◌then◌else◌, Bool-cases, inl, inr,
}
use mathlib.Core.List.{map-append}
use pgvolvra.Exec.{Exec, ok, ◌>>◌}
use pgvolvra.Format.{Change, Segment, Platform, IsFaithful}
use pgvolvra.Lines.{Stream}
use pgvolvra.Source.{open_source}
use pgvolvra.Archive.{Sys}
use pgvolvra.Archive.Segments.{core, cores}
use pgvolvra.Archive.History.{Unsealed, Filed}
use pgvolvra.Archive.Durable.{Listed, Durable}
use pgvolvra.Restore.{
  restore_opened, Loading, Statement, statement, no_row, restore_change, restore_lines,
  restore_segments, restore_archive, connected, call,
}
use pgvolvra.Recovery.Served.{Fits, directory, lines_of, Records-Opens, read_manifest-directory}

-- The changes of rows, those that have something to load.
abbrev pub rows : List Change → List Change
rows [] = []
rows (c ∷ cs) = let rest = rows cs in if no_row c then rest else c ∷ rest

module _ (p : Platform) where
  -- The statements that a restore of the changes sends.
  abbrev pub statements : Bool → List Change → List Statement
  statements true cs = []
  statements false cs = map (statement p) (rows cs)

  -- The changes were loaded, all of them: the counters, and what the database executed.
  pub record Loaded (dry : Bool) (cs : List Change) (st st' : Loading) : Type 0 where
    pub loaded_is : st'.loaded ≡ st.loaded + length (rows cs)
    pub skipped_is : st'.skipped + length (rows cs) ≡ st.skipped + length cs
    pub sent_is : st'.sent ≡ st.sent ++ statements dry cs
    pub fails_is : st'.fails ≡ st.fails

  abbrev Works : Loading → Type 0
  Works st = (n : ℕ) → st.fails n ≡ false

  Works-later :
      (dry : Bool) (cs : List Change) (st st' : Loading)
      → Loaded dry cs st st'
      → Works st
      → Works st'
  Works-later dry cs st st' h w n = ap (λ f. f n) h.fails_is ∙ w n

  rows-append : (xs ys : List Change) → rows (xs ++ ys) ≡ rows xs ++ rows ys
  rows-append [] ys = refl
  rows-append (c ∷ xs) ys = elim (Bool-cases (no_row c)) [
    | inl e ↦ rw (e, rows-append xs ys) refl
    | inr e ↦ rw (e, rows-append xs ys) refl
  ]

  statements-append :
      (dry : Bool) (xs ys : List Change)
      → statements dry xs ++ statements dry ys ≡ statements dry (xs ++ ys)
  statements-append true xs ys = refl
  statements-append false xs ys =
      sym (map-append (statement p) (rows xs) (rows ys))
      ∙ ap (map (statement p)) (sym (rows-append xs ys))

  Loaded-append :
      (dry : Bool) (xs ys : List Change) (s t u : Loading)
      → Loaded dry xs s t
      → Loaded dry ys t u
      → Loaded dry (xs ++ ys) s u
  Loaded-append dry xs ys s t u h k = record {
    loaded_is =
        rw rows-append (omega (arith, h.loaded_is, k.loaded_is, length-append (rows xs) (rows ys)));
    skipped_is = rw rows-append (
        omega (
          arith,
          h.skipped_is,
          k.skipped_is,
          length-append (rows xs) (rows ys),
          length-append xs ys,
        ));
    sent_is =
        k.sent_is
        ∙ ap (λ l. l ++ statements dry ys) h.sent_is
        ∙ append_assoc s.sent (statements dry xs) (statements dry ys)
        ∙ ap (λ l. s.sent ++ l) (statements-append dry xs ys);
    fails_is = k.fails_is ∙ h.fails_is;
  }

  -- The action succeeds, and loads the changes.
  abbrev Loads : Bool → List Change → Exec Loading (Unit {0}) → Loading → Type 0
  Loads dry cs m st = (st' : Loading) × (m st ≡ (ok tt, st')) × Loaded dry cs st st'

  Loaded-none : (dry : Bool) (st : Loading) → Loaded dry [] st st
  Loaded-none dry st = record {
    loaded_is = omega arith;
    skipped_is = refl;
    sent_is = sym (append-nil st.sent) ∙ ap (λ l. st.sent ++ l) (none_sent dry);
    fails_is = refl;
  }
    where
      none_sent : (dry : Bool) → [] ≡ statements dry []
      none_sent true = refl
      none_sent false = refl

  Loads-then :
      (dry : Bool) (xs ys : List Change) (m k : Exec Loading (Unit {0})) (st : Loading)
      → Works st
      → Loads dry xs m st
      → ((st' : Loading) → Works st' → Loads dry ys k st')
      → Loads dry (xs ++ ys) (m >> k) st
  Loads-then dry xs ys m k st w (st', e, h) f =
      let (st'', e', h') = f st' (Works-later dry xs st st' h w) in
      (st'', rw e e', Loaded-append dry xs ys st st' st'' h h')

  abbrev sent_row : Change → Loading → Loading
  sent_row c st = record st {
    loaded = suc st.loaded;
    sent = st.sent ++ statement p c ∷ [];
    calls = suc st.calls;
  }

  restore_change-Loads :
      (dry : Bool) (c : Change) (st : Loading)
      → Works st
      → Loads dry (c ∷ []) (restore_change p dry (some c)) st
  unfolding restore_change call
  restore_change-Loads dry c st w = elim (Bool-cases (no_row c)) [
    | inl e ↦ (
      record st { skipped = suc st.skipped },
      rw e refl,
      record {
        loaded_is = rw e (omega arith);
        skipped_is = rw e (omega arith);
        sent_is = sym (append-nil st.sent) ∙ ap (λ l. st.sent ++ l) (none_sent dry e);
        fails_is = refl;
      },
    )
    | inr e ↦ row dry e
  ]
    where
      none_sent : (dry : Bool) → no_row c ≡ true → [] ≡ statements dry (c ∷ [])
      none_sent true e = refl
      none_sent false e = rw e refl

      row : (dry : Bool) → no_row c ≡ false → Loads dry (c ∷ []) (restore_change p dry (some c)) st
      row true e = (
        record st { loaded = suc st.loaded },
        rw e refl,
        record {
          loaded_is = rw e (omega arith);
          skipped_is = rw e (omega arith);
          sent_is = sym (append-nil st.sent);
          fails_is = refl;
        },
      )
      row false e = (
        sent_row c st,
        rw (e, w st.calls) refl,
        record {
          loaded_is = rw e (omega arith);
          skipped_is = rw e (omega arith);
          sent_is = rw e refl;
          fails_is = refl;
        },
      )

  connected-Loads : (dry : Bool) (st : Loading) → Works st → Loads dry [] (connected dry) st
  unfolding call
  connected-Loads true st w = (st, refl, Loaded-none true st)
  connected-Loads false st w = (
    record st { calls = suc st.calls },
    rw (w st.calls) refl,
    record {
      loaded_is = omega arith;
      skipped_is = refl;
      sent_is = sym (append-nil st.sent);
      fails_is = refl;
    },
  )

  restore_lines-Loads :
      IsFaithful p
      → (dry : Bool) (cs : List Change) (st : Loading) → Works st
      → Loads dry cs (restore_lines p dry (lines_of p cs)) st
  unfolding restore_lines
  restore_lines-Loads faithful dry [] st w = (st, refl, Loaded-none dry st)
  restore_lines-Loads faithful dry (c ∷ cs) st w = rw (faithful.decode-encode c) (
      Loads-then dry (c ∷ []) cs (restore_change p dry (some c))
        (restore_lines p dry (lines_of p cs)) st w (restore_change-Loads dry c st w)
        (restore_lines-Loads faithful dry cs))

  restore_segments-Loads :
      IsFaithful p
      → (D : Assoc Bytes) (r : Option (Assoc Stream)) (dry : Bool) (prev : Bytes)
        (segs : List Segment) (cs : List Change)
      → All (Fits p) cs
      → Filed p D prev (cores segs) cs
      → (st : Loading) → Works st
      → Loads dry cs (restore_segments p (directory D r) dry segs) st
  unfolding restore_segments
  restore_segments-Loads faithful D r dry prev [] cs fits empty st w =
      rw empty (st, refl, Loaded-none dry st)
  restore_segments-Loads faithful D r dry prev (s ∷ segs) cs fits
        (here, later, split, recorded, filed) st w =
      let (mine, others) = All-split (Fits p) here later (subst (All (Fits p)) split fits) in
      let (f, opened, scanned) = Records-Opens p faithful D r prev (core s) here mine recorded in
      subst (λ cs. Loads dry cs (restore_segments p (directory D r) dry (s ∷ segs)) st) (sym split)
        (Loads-then dry here later (restore_opened p dry (open_source (directory D r) s.file))
          (restore_segments p (directory D r) dry segs) st w
          (let (st', e, h) = restore_lines-Loads faithful dry here st w in
            (st', rw (opened, scanned, e) refl, h))
          (restore_segments-Loads faithful D r dry s.chain segs later others filed))

module _ (p : Platform) (faithful : IsFaithful p) (hist : List Change) (s : Sys)
    (r : Option (Assoc Stream)) where
  nothing_open :
      (l : Listed p hist s.arch s.world.disk) → s.arch.cur ≡ none → hist ≡ l.recorded.sealed
  nothing_open l closed =
      l.recorded.whole
      ∙ ap (λ cs. l.recorded.sealed ++ cs)
          (subst
            (λ cur.
              Unsealed p s.world.disk cur s.arch.hashed s.arch.cur_count s.arch.cur_start
                s.arch.cur_end l.recorded.unsealed)
            closed l.recorded.open_file)
      ∙ append-nil l.recorded.sealed

  -- A restore from the directory of an archive writer with no open segment, into a database that
  -- answers every call, succeeds. It sends one statement for each row change of the history, in
  -- order, and none in a dry run; the counters are the number of those changes, and of the others.
  -- The condition is that the reader's buffer takes each record.
  pub restore_archive-Durable :
      All (Fits p) hist
      → Durable p hist s
      → s.arch.cur ≡ none
      → (dry : Bool) (st : Loading) → ((n : ℕ) → st.fails n ≡ false)
      → (st' : Loading) × (restore_archive p (directory s.world.disk r) dry st ≡ (ok tt, st'))
        × Loaded p dry hist st st'
  unfolding restore_archive call
  restore_archive-Durable fits (b, l, _) closed dry st w =
      let D = s.world.disk in
      let whole = nothing_open l closed in
      let (m, read, same) =
        read_manifest-directory p faithful D r s.arch.man.segments b.numbered l.names in
      let filed =
        subst (Filed p D [] (cores m.segments)) (sym whole)
          (subst (λ segs. Filed p D [] segs l.recorded.sealed) (sym same) l.recorded.filed) in
      rw read (
        Loads-then p dry [] hist (connected dry) (restore_segments p (directory D r) dry m.segments)
          st w (connected-Loads p dry st w)
          (restore_segments-Loads p faithful D r dry [] m.segments hist fits filed))
