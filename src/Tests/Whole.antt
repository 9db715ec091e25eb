-- ===== src/Tests/Whole.antt =====
-- A run of the companion's archive from a new directory to a restore.
use pgvolvra.Base.{◌≡◌, refl, false, none, List, [], ◌∷◌, Bytes, lookup, codes}
use pgvolvra.Exec.{Outcome, ok, err}
use pgvolvra.Exec.Laws.{After}
use pgvolvra.World.{World, attempt, touch, now, read_disk, write_disk, rename, create, write_end}
use pgvolvra.World.Laws.{At}
use pgvolvra.Archive.{Archive, Sys, save_manifest, write_manifest, create_segment, open_segment}
use pgvolvra.Archive.Upload.{push_noting, push_quietly}
use pgvolvra.Archive.Writer.{
  sealed, record_segment, seal, rotate_from, rotate, write_record, open_if, ensure_open,
  rotate_full, append_to, append,
}
use pgvolvra.Archive.Durable.{Durable, Safe}
use pgvolvra.Archive.Opening.{open_archive, start_archive}
use pgvolvra.Archive.Session.{Call, append_change, rotate_now, run}
use pgvolvra.Feed.{report_status}
use pgvolvra.Feed.Reported.{Acknowledged, report_status-Kept}
use pgvolvra.Recovery.Whole.{restore-appended}
use pgvolvra.Recovery.Working.{run-succeeds}
use pgvolvra.Recovery.Served.{directory}
use pgvolvra.Recovery.Restored.{Loaded}
use pgvolvra.Restore.{Loading, restore_archive}
use pgvolvra.Tests.Toy.{encode, field, shift, number, toy, toy-IsFaithful}
use pgvolvra.Tests.States.{change, history, world, world-IsHonest, open_state, open_state-Durable}
use pgvolvra.Tests.Readers.{history-Fits, empty_database}

report_status-Kept_example :
    After (Acknowledged toy toy-IsFaithful history 4) (Safe toy) (report_status toy 4 open_state)
report_status-Kept_example =
    report_status-Kept toy toy-IsFaithful history 4 open_state open_state-Durable

abbrev pub nothing : World
nothing = world [] []

abbrev name : Bytes
name = codes "volvra"

pub nothing-At : At toy [] [] nothing
nothing-At = record { bucket_is = refl; disk_is = refl; honest = world-IsHonest [] [] }

abbrev answer_of : {A : Type 0} {S : Type 0} → A → Outcome A × S → A
answer_of d (ok a, s) = a
answer_of d (err e, s) = d

abbrev opening : Outcome Archive × World
opening = open_archive toy name name 1000 nothing

abbrev first : Archive
first = answer_of open_state.arch opening

abbrev first_state : Sys
first_state = record { arch = first; world = opening.1 }

abbrev calls : List Call
calls = append_change change ∷ rotate_now ∷ []

abbrev last_state : Sys
last_state = (run toy calls first_state).1

opens : opening ≡ (ok first, opening.1)
unfolding open_archive start_archive touch attempt now read_disk lookup write_manifest save_manifest
    write_disk rename
opens = refl

pub no_manifest : lookup (codes "manifest.json") (nothing.disk) ≡ none
unfolding lookup
no_manifest = refl

run-succeeds_example :
    (a : Archive) × (w : World) × (s : Sys) × (open_archive toy name name 1000 nothing ≡ (ok a, w))
    × (run toy calls (record { arch = a; world = w }) ≡ (ok tt, s))
    × Durable toy history s
run-succeeds_example =
    run-succeeds toy toy-IsFaithful name name 1000 [] [] no_manifest nothing calls nothing-At
      (λ n. refl) refl

ran : (run toy calls first_state ≡ (ok tt, last_state)) × (last_state.arch.cur ≡ none)
unfolding run append ensure_open open_if open_segment create_segment append_to write_record
    rotate_full rotate rotate_from seal record_segment sealed push_quietly push_noting open_archive
    start_archive touch attempt now read_disk lookup write_manifest save_manifest write_disk rename
    create write_end encode field shift number
ran = (refl, refl)

restore-appended_example :
    (st' : Loading) × (restore_archive toy
        (directory last_state.world.disk none)
        false
        empty_database
      ≡ (ok tt, st'))
    × Loaded toy false history empty_database st'
restore-appended_example =
    restore-appended toy toy-IsFaithful name name 1000 [] [] no_manifest nothing opening.1 first
      calls last_state none false empty_database nothing-At opens ran.0 ran.1 history-Fits
      (λ n. refl)
