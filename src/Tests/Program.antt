-- ===== src/Tests/Program.antt =====
-- The theorems on the program of the command line at concrete arguments.
use pgvolvra.Base.{◌⊎◌, ◌≡◌, refl, true, false, ◌++◌, some, List, [], ◌∷◌, Bytes, codes}
use pgvolvra.Cli.Value.{string}
use pgvolvra.Cli.Session.{exit_finding, Session, Answer}
use pgvolvra.Cli.Entry.{
  Command, command_name, command_of, for_command, scan, behind, Surroundings, run,
}
use pgvolvra.Cli.Sent.{SentSafely, run-SentSafely}
use pgvolvra.Cli.Codes.{Coded, run-Coded, run-judged}
use pgvolvra.Cli.Scanned.{to_source, confirming, written, scan-options}
use pgvolvra.Cli.Render.{write}
use pgvolvra.Cli.Aligned.{Tabled, write-Even}
use pgvolvra.Cli.Command.{cmd_forget}
use pgvolvra.Cli.Erasure.{Erased, cmd_forget-Erased}

abbrev verdicts : Answer
verdicts = record { fields = codes "verdict" ∷ []; records = (string (codes "TAMPERED") ∷ []) ∷ [] }

abbrev tampered : Session
tampered = record {
  connected = [];
  sent = [];
  calls = 0;
  answer = λ n. some verdicts;
  number = λ n. some (some 3);
  printed = [];
}

abbrev env : Surroundings
env = record { connects = true; input = record { is_terminal = true; line = some (codes "y") } }

abbrev verifying : List Bytes
verifying = codes "--dsn" ∷ codes "host=db" ∷ codes "verify" ∷ codes "--yes" ∷ []

run-SentSafely_example : SentSafely env verifying tampered (run env verifying tampered).1
run-SentSafely_example = run-SentSafely env verifying tampered

run-Coded_example : Coded env verifying tampered (run env verifying tampered).0
run-Coded_example = run-Coded env verifying tampered

asked : scan verifying [] false ≡ for_command (codes "verify") (codes "host=db") true []
unfolding scan behind
asked = refl

named : command_of (codes "verify") ≡ some Command.verify
unfolding command_of command_name
named = refl

run-judged_example : (run env verifying tampered).0 ≡ exit_finding
run-judged_example =
    run-judged env verifying tampered (codes "verify") (codes "host=db") true [] Command.verify
      asked named refl refl

scan-options_example :
    scan
      (written (to_source (codes "host=a") ∷ [])
        ++ codes "undo"
          ∷ ((codes "--txid" ∷ codes "12" ∷ [])
              ++ (written (confirming ∷ to_source (codes "host=b") ∷ []) ++ [])))
      []
      false
    ≡ for_command (codes "undo") (codes "host=b") true (codes "--txid" ∷ codes "12" ∷ [])
scan-options_example =
    scan-options (codes "undo") (to_source (codes "host=a") ∷ [])
      (confirming ∷ to_source (codes "host=b") ∷ []) (codes "--txid" ∷ codes "12" ∷ []) []
      (refl, refl, refl) ((refl, refl, refl), ((refl, refl, refl), tt)) tt

abbrev forgotten : List Bytes
forgotten = codes "people" ∷ codes "{}" ∷ codes "--hard" ∷ []

cmd_forget-Erased_example :
    Erased false env.input tampered forgotten (cmd_forget false env.input forgotten tampered).1
cmd_forget-Erased_example = cmd_forget-Erased false env.input tampered forgotten

abbrev titles : List Bytes
titles = codes "id" ∷ codes "note" ∷ []

abbrev rows : List (List Bytes)
rows = (codes "1" ∷ codes "hi" ∷ []) ∷ (codes "12345" ∷ []) ∷ []

write-Even_example :
    ((titles ≡ []) × (write titles rows ≡ some [])) ⊎ Tabled titles rows (write titles rows)
write-Even_example = write-Even titles rows
