-- ===== src/Tests/Readers.antt =====
-- The theorems on verification and restore at concrete directories.
use pgvolvra.Base.{
  ◌⊎◌, lookup, insert, lt_bytes, ◌++◌, ◌≡◌, refl, ◌↔◌, false, none, some, List, [], ◌∷◌, codes, All,
  any, arith,
}
use pgvolvra.Exec.{ok}
use pgvolvra.Format.{Manifest}
use pgvolvra.Lines.{scan_from, scan_end, drop_cr, scan}
use pgvolvra.Lines.Laws.{Plain}
use pgvolvra.Archive.Segments.{cores}
use pgvolvra.Companion.{cmd_verify, cmd_restore}
use pgvolvra.Companion.Restoring.{Verified, cmd_verify-Verified, cmd_restore-Verified}
use pgvolvra.Remote.{digest}
use pgvolvra.Format.Names.{hex, segment_name}
use pgvolvra.Source
use pgvolvra.Source.{sort_segments, open_source}
use pgvolvra.Verify.{
  check_from, check_segment, judge, order_findings, unrecorded_files, unrecorded_in,
  is_segment_file, count_bad, gap_recorded, fatal_verdict, Finding, fatal, verify_archive,
}
use pgvolvra.Verify.Sound.{IntactFrom, verify_archive-IntactFrom}
use pgvolvra.Recovery.Served.{Fits, directory}
use pgvolvra.Recovery.Verified.{is_alarm, verify_archive-Durable}
use pgvolvra.Recovery.Restored.{Loaded, restore_archive-Durable}
use pgvolvra.Restore.{Loading, restore_archive, quote_literal}
use pgvolvra.Feed.{quote_ident}
use pgvolvra.Feed.Naming.{read_name, read_name-quote_ident}
use pgvolvra.Restore.Quote.{read_literal, read_literal-quote_literal}
use pgvolvra.Tests.Toy
use pgvolvra.Tests.Toy.{
  decode, write_manifest, write_segments, read_segments, read_field, read_number, read_bytes, toy,
  toy-IsFaithful, encode, shift, field, number, bit,
}
use pgvolvra.Tests.States.{history, disk, waiting, sealed_state, sealed_state-Durable}

pub history-Fits : All (Fits toy) history
unfolding encode shift field number bit
history-Fits = (omega arith, tt)

line-Plain : All Plain (codes "{}" ∷ codes "{1}" ∷ [])
line-Plain = ((refl, refl, omega arith), ((refl, refl, omega arith), tt))

-- The verification of the directory of one sealed segment.
verified :
    (fs : List Finding) × (m : Manifest) × (verify_archive toy (directory (disk waiting) none)
      ≡ ok (fs, m))
    × (cores m.segments ≡ cores waiting)
    × (any is_alarm fs ≡ false)
verified =
    verify_archive-Durable toy toy-IsFaithful history sealed_state none history-Fits
      sealed_state-Durable

verify_archive-Durable_example :
    (fs : List Finding) × (m : Manifest) × (verify_archive toy (directory (disk waiting) none)
      ≡ ok (fs, m))
    × (cores m.segments ≡ cores waiting)
    × (any is_alarm fs ≡ false)
verify_archive-Durable_example =
    verify_archive-Durable toy toy-IsFaithful history sealed_state none history-Fits
      sealed_state-Durable

verify_archive-IntactFrom_example :
    (any fatal verified.0 ≡ false)
    ↔ IntactFrom toy (directory (disk waiting) none) verified.1.segments [] [] verified.1.segments
verify_archive-IntactFrom_example =
    verify_archive-IntactFrom toy (directory (disk waiting) none) verified.0 verified.1 verified.2

abbrev pub empty_database : Loading
empty_database = record { loaded = 0; skipped = 0; sent = []; calls = 0; fails = λ n. false }

restore_archive-Durable_example :
    (st' : Loading) × (restore_archive toy (directory (disk waiting) none) false empty_database
      ≡ (ok tt, st'))
    × Loaded toy false history empty_database st'
restore_archive-Durable_example =
    restore_archive-Durable toy toy-IsFaithful history sealed_state none history-Fits
      sealed_state-Durable refl false empty_database (λ n. refl)

read_literal-quote_literal_example :
    read_literal (quote_literal (codes "o'brien") ++ codes ") AS rel")
    ≡ some (codes "o'brien", codes ") AS rel")
read_literal-quote_literal_example =
    read_literal-quote_literal (codes "o'brien") (codes ") AS rel") refl

read_name-quote_ident_example :
    read_name (quote_ident (codes "a\".b") ++ (b'.' ∷ quote_ident (codes "t\"")))
    ≡ some (codes "a\".b", codes "t\"")
read_name-quote_ident_example = read_name-quote_ident (codes "a\".b") (codes "t\"")

accepted : cmd_verify toy (directory (disk waiting) none) ≡ ok tt
unfolding cmd_verify decode Toy.read_manifest write_manifest write_segments read_segments read_field
    read_number read_bytes verify_archive check_from check_segment judge order_findings
    unrecorded_files unrecorded_in is_segment_file count_bad gap_recorded fatal_verdict
    Source.read_manifest sort_segments open_source lookup insert scan scan_from scan_end drop_cr
    digest hex segment_name lt_bytes encode field shift number bit
accepted = refl

cmd_verify-Verified_example : Verified toy (directory (disk waiting) none)
cmd_verify-Verified_example = cmd_verify-Verified toy (directory (disk waiting) none) accepted

cmd_restore-Verified_example :
    ((cmd_restore toy
        (directory (disk waiting) none)
        (directory (disk waiting) none)
        (codes "dsn")
        false
        empty_database).1
      ≡ empty_database)
    ⊎ (Verified toy (directory (disk waiting) none)
        × (cmd_restore toy
              (directory (disk waiting) none)
              (directory (disk waiting) none)
              (codes "dsn")
              false
              empty_database
            ≡ restore_archive toy (directory (disk waiting) none) false empty_database))
cmd_restore-Verified_example =
    cmd_restore-Verified toy (directory (disk waiting) none) (directory (disk waiting) none)
      (codes "dsn") false empty_database
