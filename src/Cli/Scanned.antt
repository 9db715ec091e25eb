-- ===== src/Cli/Scanned.antt =====
-- On the options of the program, before the command and behind it (cli/main.go).
use pgvolvra.Base.{
  ◌≡◌, refl, sym, ◌∙◌, ap, Bool, true, false, List, [], ◌∷◌, ◌++◌, append_assoc, append-nil, Bytes,
  codes, beq, All,
}
use pgvolvra.Cli.Entry.{for_command, dsn_name, is_yes_name, is_help_name, scan, behind}

-- An option of the program.
pub data Global : Type 0 where
  to_source : Bytes → Global
  confirming confirming_short : Global

-- How options are written.
abbrev pub written : List Global → List Bytes
written [] = []
written (to_source dsn ∷ gs) = dsn_name ∷ dsn ∷ written gs
written (confirming ∷ gs) = codes "--yes" ∷ written gs
written (confirming_short ∷ gs) = codes "-y" ∷ written gs

-- The data source after options: that of the last one.
abbrev pub source_after : List Global → Bytes → Bytes
source_after [] dsn = dsn
source_after (to_source dsn' ∷ gs) dsn = source_after gs dsn'
source_after (confirming ∷ gs) dsn = source_after gs dsn
source_after (confirming_short ∷ gs) dsn = source_after gs dsn

abbrev pub confirmed_after : List Global → Bool → Bool
confirmed_after [] said_yes = said_yes
confirmed_after (to_source dsn ∷ gs) said_yes = confirmed_after gs said_yes
confirmed_after (confirming ∷ gs) said_yes = confirmed_after gs true
confirmed_after (confirming_short ∷ gs) said_yes = confirmed_after gs true

-- An argument that is none of the program's options.
abbrev pub Ordinary : Bytes → Type 0
Ordinary a = (beq a dsn_name ≡ false) × (is_yes_name a ≡ false) × (is_help_name a ≡ false)

module _ (cmd : Bytes) where
  nothing_left :
      (dsn : Bytes) (said_yes : Bool) (kept : List Bytes)
      → behind cmd [] dsn said_yes kept ≡ for_command cmd dsn said_yes kept
  unfolding behind
  nothing_left dsn said_yes kept = refl

  behind-keep :
      (a : Bytes) (rest : List Bytes) (dsn : Bytes) (said_yes : Bool) (kept : List Bytes)
      → Ordinary a
      → behind cmd (a ∷ rest) dsn said_yes kept ≡ behind cmd rest dsn said_yes (kept ++ a ∷ [])
  unfolding behind
  behind-keep a [] dsn said_yes kept (d, y, h) = rw (d, y, h) refl
  behind-keep a (v ∷ rest) dsn said_yes kept (d, y, h) = rw (d, y, h) refl

  behind_keeps :
      (xs rest : List Bytes) (dsn : Bytes) (said_yes : Bool) (kept : List Bytes)
      → All Ordinary xs
      → behind cmd (xs ++ rest) dsn said_yes kept ≡ behind cmd rest dsn said_yes (kept ++ xs)
  behind_keeps [] rest dsn said_yes kept h =
      ap (behind cmd rest dsn said_yes) (sym (append-nil kept))
  behind_keeps (a ∷ xs) rest dsn said_yes kept (o, h) =
      behind-keep a (xs ++ rest) dsn said_yes kept o
      ∙ behind_keeps xs rest dsn said_yes (kept ++ a ∷ []) h
      ∙ ap (behind cmd rest dsn said_yes) (append_assoc kept (a ∷ []) xs)

  behind-written :
      (gs : List Global) (rest : List Bytes) (dsn : Bytes) (said_yes : Bool) (kept : List Bytes)
      → behind cmd (written gs ++ rest) dsn said_yes kept
        ≡ behind cmd rest (source_after gs dsn) (confirmed_after gs said_yes) kept
  unfolding behind
  behind-written [] rest dsn said_yes kept = refl
  behind-written (to_source v ∷ gs) rest dsn said_yes kept = behind-written gs rest v said_yes kept
  behind-written (confirming ∷ gs) rest dsn said_yes kept =
      one (written gs ++ rest) ∙ behind-written gs rest dsn true kept
    where
      one :
          (r : List Bytes)
          → behind cmd (codes "--yes" ∷ r) dsn said_yes kept ≡ behind cmd r dsn true kept
      one [] = refl
      one (v ∷ r) = refl
  behind-written (confirming_short ∷ gs) rest dsn said_yes kept =
      one (written gs ++ rest) ∙ behind-written gs rest dsn true kept
    where
      one :
          (r : List Bytes)
          → behind cmd (codes "-y" ∷ r) dsn said_yes kept ≡ behind cmd r dsn true kept
      one [] = refl
      one (v ∷ r) = refl

  scan-command :
      (rest : List Bytes) (dsn : Bytes) (said_yes : Bool)
      → Ordinary cmd
      → scan (cmd ∷ rest) dsn said_yes ≡ behind cmd rest dsn said_yes []
  unfolding scan behind
  scan-command [] dsn said_yes (d, y, h) = rw (d, y, h) refl
  scan-command (v ∷ rest) dsn said_yes (d, y, h) = rw (d, y, h) refl

  scan-yes :
      (gs : List Global) (rest : List Bytes) (dsn : Bytes) (said_yes : Bool)
      → scan (codes "--yes" ∷ written gs ++ cmd ∷ rest) dsn said_yes
        ≡ scan (written gs ++ cmd ∷ rest) dsn true
  unfolding scan
  scan-yes [] rest dsn said_yes = refl
  scan-yes (to_source v ∷ gs) rest dsn said_yes = refl
  scan-yes (confirming ∷ gs) rest dsn said_yes = refl
  scan-yes (confirming_short ∷ gs) rest dsn said_yes = refl

  scan-y :
      (gs : List Global) (rest : List Bytes) (dsn : Bytes) (said_yes : Bool)
      → scan (codes "-y" ∷ written gs ++ cmd ∷ rest) dsn said_yes
        ≡ scan (written gs ++ cmd ∷ rest) dsn true
  unfolding scan
  scan-y [] rest dsn said_yes = refl
  scan-y (to_source v ∷ gs) rest dsn said_yes = refl
  scan-y (confirming ∷ gs) rest dsn said_yes = refl
  scan-y (confirming_short ∷ gs) rest dsn said_yes = refl

  scan-written :
      (gs : List Global) (rest : List Bytes) (dsn : Bytes) (said_yes : Bool)
      → scan (written gs ++ cmd ∷ rest) dsn said_yes
        ≡ scan (cmd ∷ rest) (source_after gs dsn) (confirmed_after gs said_yes)
  unfolding scan
  scan-written [] rest dsn said_yes = refl
  scan-written (to_source v ∷ gs) rest dsn said_yes = scan-written gs rest v said_yes
  scan-written (confirming ∷ gs) rest dsn said_yes =
      scan-yes gs rest dsn said_yes ∙ scan-written gs rest dsn true
  scan-written (confirming_short ∷ gs) rest dsn said_yes =
      scan-y gs rest dsn said_yes ∙ scan-written gs rest dsn true

  -- The options of the program that stand before the command and those among its own arguments are
  -- taken out of them: the command has its other arguments in their order, the last data source that
  -- was named, and counts as confirmed when any of the options said so.
  pub scan-options :
      (gs gs' : List Global) (xs ys : List Bytes)
      → Ordinary cmd
      → All Ordinary xs
      → All Ordinary ys
      → scan (written gs ++ cmd ∷ (xs ++ (written gs' ++ ys))) [] false
        ≡ for_command cmd
            (source_after gs' (source_after gs []))
            (confirmed_after gs' (confirmed_after gs false))
            (xs ++ ys)
  scan-options gs gs' xs ys c x y =
      let dsn = source_after gs [] in
      let said_yes = confirmed_after gs false in
      scan-written gs (xs ++ (written gs' ++ ys)) [] false
      ∙ scan-command (xs ++ (written gs' ++ ys)) dsn said_yes c
      ∙ behind_keeps xs (written gs' ++ ys) dsn said_yes [] x
      ∙ behind-written gs' ys dsn said_yes xs
      ∙ all_kept (source_after gs' dsn) (confirmed_after gs' said_yes)
    where
      all_kept :
          (dsn : Bytes) (said_yes : Bool)
          → behind cmd ys dsn said_yes xs ≡ for_command cmd dsn said_yes (xs ++ ys)
      all_kept dsn said_yes =
          ap (λ l. behind cmd l dsn said_yes xs) (sym (append-nil ys))
          ∙ behind_keeps ys [] dsn said_yes xs y
          ∙ nothing_left dsn said_yes (xs ++ ys)
