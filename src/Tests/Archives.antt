-- ===== src/Tests/Archives.antt =====
-- The theorems on the archive writer, the stream and the guard at concrete states.
use pgvolvra.Base.{
  arith, true, false, ℕ, ◌≡◌, refl, none, some, [], ◌∷◌, ◌++◌, Bytes, codes, insert,
}
use pgvolvra.Exec.Laws.{After}
use pgvolvra.Format.Names.{segment_name, segment_name-injective}
use pgvolvra.World.Laws.{At, MayHold}
use pgvolvra.Remote.{readback, digest, put_segment}
use pgvolvra.Remote.Laws.{put_segment-stored}
use pgvolvra.Archive.{resume_lsn}
use pgvolvra.Archive.Upload.{push_remote}
use pgvolvra.Archive.Writer.{rotate, append, close}
use pgvolvra.Archive.Durable.{Durable, Safe}
use pgvolvra.Archive.Push.{push_remote-history}
use pgvolvra.Archive.Appending.{append-history}
use pgvolvra.Archive.Resume.{Recoverable, resume_lsn-Recoverable}
use pgvolvra.Archive.Opening.{open_archive}
use pgvolvra.Archive.Opened.{Opened, Unopened, open_archive-Opened}
use pgvolvra.Archive.Pending.{Nothing}
use pgvolvra.Archive.Sealed.{Clean, rotate-Clean, close-Clean}
use pgvolvra.Archive.Reopened.{Resumed, open_archive-Resumed}
use pgvolvra.Feed.{
  Row, unchanged, tuple_to_map, Relation, Message, insert_message, text_column, Feed, handle,
}
use pgvolvra.Feed.Columns.{HasValues, tuple_to_map-HasValues}
use pgvolvra.Feed.Described.{Transaction, IsRecorded}
use pgvolvra.Feed.Emitted.{Lost, Grown}
use pgvolvra.Feed.Handled.{handle-history}
use pgvolvra.Guard.{SlotGuard, Guarding, check}
use pgvolvra.Guard.Laws.{Stopped, Checked, check-gap}
use pgvolvra.Tests.Toy.{toy, toy-IsFaithful}
use pgvolvra.Tests.States.{
  change, history, sum, world, world-IsHonest, disk, waiting, remote, sealed_state,
  sealed_state-Durable, open_state, open_state-Durable, uploaded_state, uploaded_state-Safe,
}

segment_name-injective_example : ◌≡◌ {A = ℕ} 3 3
segment_name-injective_example = segment_name-injective 3 3 refl

world-At : At toy [] (disk waiting) (world (disk waiting) [])
world-At = record { bucket_is = refl; disk_is = refl; honest = world-IsHonest (disk waiting) [] }

put_segment-stored_example :
    After
      (λ _ w'.
        (x : Bytes) × At toy (insert (segment_name 1) x []) (disk waiting) w'
        × (digest toy x ≡ sum))
      (MayHold toy [] (disk waiting) (segment_name 1))
      (put_segment toy readback (segment_name 1) (segment_name 1) sum (world (disk waiting) []))
put_segment-stored_example =
    put_segment-stored toy [] (disk waiting) readback (segment_name 1) (segment_name 1) sum
      (world (disk waiting) []) world-At

push_remote-history_example :
    After (λ _. Durable toy history) (Durable toy history) (push_remote toy true sealed_state)
push_remote-history_example =
    push_remote-history toy toy-IsFaithful history true sealed_state sealed_state-Durable

rotate-Clean_example :
    After (λ _. Clean toy toy-IsFaithful history) (Safe toy) (rotate toy open_state)
rotate-Clean_example = rotate-Clean toy toy-IsFaithful history open_state open_state-Durable

append-history_example :
    After (λ _. Durable toy (history ++ change ∷ [])) (Safe toy) (append toy change open_state)
append-history_example =
    append-history toy toy-IsFaithful history change open_state open_state-Durable

close-Clean_example :
    After
      (λ _ s. Clean toy toy-IsFaithful history s × Nothing toy toy-IsFaithful s.arch)
      (Safe toy)
      (close toy open_state)
close-Clean_example = close-Clean toy toy-IsFaithful history open_state open_state-Durable

resume_lsn-Recoverable_example : Recoverable toy uploaded_state (resume_lsn uploaded_state.arch)
resume_lsn-Recoverable_example =
    resume_lsn-Recoverable toy uploaded_state remote refl uploaded_state-Safe

open_archive-Opened_example :
    After
      (Opened toy toy-IsFaithful [] (disk waiting) (codes "volvra") (codes "volvra") 1000)
      (Unopened toy toy-IsFaithful [] (disk waiting))
      (open_archive toy (codes "volvra") (codes "volvra") 1000 (world (disk waiting) []))
open_archive-Opened_example =
    open_archive-Opened toy toy-IsFaithful [] (disk waiting) (codes "volvra") (codes "volvra") 1000
      (world (disk waiting) []) world-At

open_archive-Resumed_example :
    After
      (Resumed toy toy-IsFaithful history []
        (disk [])
        open_state.arch
        (open_state-Durable.0, open_state-Durable.1))
      (Unopened toy toy-IsFaithful [] (disk []))
      (open_archive toy (codes "volvra") (codes "volvra") 1000 open_state.world)
open_archive-Resumed_example =
    open_archive-Resumed toy toy-IsFaithful history [] (disk []) open_state.arch
      (open_state-Durable.0, open_state-Durable.1) (codes "volvra") (codes "volvra") 1000
      open_state.world
      (record { bucket_is = refl; disk_is = refl; honest = world-IsHonest (disk []) [] })

abbrev relation : Relation
relation = record { name = codes "t"; cols = codes "id" ∷ []; pk_cols = codes "id" ∷ [] }

abbrev feed : Feed
feed = record {
  sys = open_state;
  skip_to = 5;
  rels = (7, relation) ∷ [];
  commit_ts = 3;
  xid = 12;
  changes = 0;
  skipped = 0;
}

abbrev inserted : Message
inserted = insert_message 7 (some (text_column (codes "1") ∷ []))

abbrev begun : Transaction
begun = record { number = 12; committed = 3 }

handle-history_example :
    After
      (λ _.
        Grown toy toy-IsFaithful 5
          ((7, relation) ∷ [])
          begun
          history
          (IsRecorded toy begun (toy.lsn_text 9) ((7, relation) ∷ []) false inserted))
      (Lost toy toy-IsFaithful 5 ((7, relation) ∷ []))
      (handle toy (λ n. codes "id" ∷ []) 9 (some inserted) feed)
handle-history_example =
    handle-history toy toy-IsFaithful 5 ((7, relation) ∷ []) (λ n. codes "id" ∷ []) begun history 9
      inserted feed refl (open_state-Durable, (refl, refl, refl, refl))

abbrev guard : SlotGuard
guard = record { warn_bytes = 20; max_bytes = 50; has_on_gap = true }

abbrev guarding : Guarding
guarding = record { sys = open_state; warned = false; advanced = none }

check-gap_example :
    After
      (λ _. Checked toy toy-IsFaithful guard history 5)
      (Stopped toy toy-IsFaithful guard)
      (check toy guard 5 (some (record { retained = some 100; current = 42 ∷ [] })) guarding)
check-gap_example =
    check-gap toy toy-IsFaithful guard history 5
      (some (record { retained = some 100; current = 42 ∷ [] })) guarding (open_state-Durable, refl)

abbrev wide : Relation
wide = record { name = codes "t"; cols = codes "id" ∷ codes "body" ∷ []; pk_cols = codes "id" ∷ [] }

abbrev before : Row
before = (codes "id", some (codes "1")) ∷ (codes "body", some (codes "long")) ∷ []

tuple_to_map-HasValues_example :
    HasValues wide.cols
      (text_column (codes "1") ∷ unchanged ∷ [])
      (some before)
      (tuple_to_map wide (some (text_column (codes "1") ∷ unchanged ∷ [])) (some before))
tuple_to_map-HasValues_example =
    tuple_to_map-HasValues wide (text_column (codes "1") ∷ unchanged ∷ []) (some before)
      (((λ e. ground (arith, e)), tt), (tt, tt))
