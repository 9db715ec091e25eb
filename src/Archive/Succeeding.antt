-- ===== src/Archive/Succeeding.antt =====
-- On the archive writer where no call out fails and there is no bucket (companion/archive.go).
use pgvolvra.Base.{
  ℕ, ◌≡◌, refl, false, true, Bool, ◌==◌, leb, Option, none, some, [], ◌∷◌, ◌++◌, Bytes, arith,
}
use pgvolvra.Exec.{Exec, Action, Outcome, ok, err, pure, sync_file, close_file}
use pgvolvra.Exec.Laws.{After, Triple, Triple-bind, Triple-if, Triple-pure}
use pgvolvra.Format.{Change, Platform}
use pgvolvra.Format.Names.{manifest_name, manifest_tmp, segment_name}
use pgvolvra.World.{World, attempt, touch, now, write_disk, rename, create, write_end}
use pgvolvra.Archive.{
  Archive, Sys, in_world, write_manifest, save_manifest, create_segment, open_segment,
}
use pgvolvra.Remote.{Remote}
use pgvolvra.Archive.Upload.{push_remote, push_quietly, push_noting, push_if}
use pgvolvra.Archive.Writer.{
  counted, record_segment, seal, rotate_from, rotate, write_record, open_if, ensure_open,
  rotate_full, append_to, append, close,
}

-- No call fails, now and later.
abbrev pub Works : World → Type 0
Works w = (n : ℕ) → w.fails n ≡ false

module _ {S A : Type 0} where
  -- From a state with `P` the action succeeds, with `Q`.
  abbrev pub Succeeds : (S → Type 0) → Exec S A → (A → S → Type 0) → Type 0
  Succeeds P m Q = Triple P m Q (λ _. ⊥)

  abbrev pub Stays : (S → Type 0) → Exec S A → Type 0
  Stays P m = Succeeds P m (λ _. P)

pub touch-Stays : (a : Action) → Stays Works (touch a)
unfolding touch attempt
touch-Stays a = record { at = λ w h. rw (h w.calls) h }

pub now-Stays : Stays Works now
unfolding now
now-Stays = record { at = λ w h. h }

write_disk-Stays : (name b : Bytes) → Stays Works (write_disk name b)
unfolding write_disk attempt
write_disk-Stays name b = record { at = λ w h. rw (h w.calls) h }

rename-Stays : (from to : Bytes) → Stays Works (rename from to)
unfolding rename attempt
rename-Stays from to = record { at = λ w h. rw (h w.calls) h }

create-Stays : (name : Bytes) → Stays Works (create name)
unfolding create attempt
create-Stays name = record { at = λ w h. rw (h w.calls) h }

write_end-Stays : (name b : Bytes) → Stays Works (write_end name b)
unfolding write_end attempt
write_end-Stays name b = record { at = λ w h. rw (h w.calls) h }

-- An assertion on the archive, with calls that work.
abbrev pub Calm : (Archive → Type 0) → Sys → Type 0
Calm Q s = Q s.arch × Works s.world

module _ (Q : Archive → Type 0) where
  answered_by :
      {A : Type 0} (a : Archive) (x : Outcome A × World)
      → Q a
      → After (λ _. Works) (λ _. ⊥) x
      → After {S = Sys} (λ _. Calm Q) (λ _. ⊥) (x.0, record { arch = a; world = x.1 })
  answered_by a (ok r, w) h k = (h, k)
  answered_by a (err e, w) h k = k

  outside : {A : Type 0} (m : Exec World A) → Stays Works m → Stays (Calm Q) (in_world m)
  outside m t = record { at = λ s h. answered_by s.arch (m s.world) h.0 (t.at s.world h.1) }

  pub write_manifest-Stays : (p : Platform) → Stays (Calm Q) (write_manifest p)
  unfolding write_manifest save_manifest
  write_manifest-Stays p = record {
    at = λ s h.
        let text = p.encode_manifest s.arch.man ++ b'\n' ∷ [] in
        (Triple-bind (in_world (write_disk manifest_tmp text))
            (λ _. in_world (rename manifest_tmp manifest_name))
            (outside (write_disk manifest_tmp text) (write_disk-Stays manifest_tmp text))
            λ _.
              outside (rename manifest_tmp manifest_name)
                (rename-Stays manifest_tmp manifest_name)).at
          s h;
  }

-- There is no bucket.
abbrev pub Local : Archive → Type 0
Local a = a.remote ≡ none

-- A segment is open.
abbrev pub Open : Archive → Type 0
Open a = Local a × ((name : Bytes) × (a.cur ≡ some name))

module _ (p : Platform) where
  push_noting-Stays : (r : Option Remote) → r ≡ none → Stays (Calm Local) (push_noting p r)
  unfolding push_noting
  push_noting-Stays none e = Triple-pure tt (λ s h. h)
  push_noting-Stays (some r) e = absurd (ground (arith, e))

  push_quietly-Stays : Stays (Calm Local) (push_quietly p)
  unfolding push_quietly
  push_quietly-Stays = record { at = λ s h. (push_noting-Stays s.arch.remote h.0).at s h }

  push_if-Stays :
      (force : Bool) (r : Option Remote) → r ≡ none → Stays (Calm Local) (push_if p force r)
  unfolding push_if
  push_if-Stays force none e = Triple-pure tt (λ s h. h)
  push_if-Stays force (some r) e = absurd (ground (arith, e))

  pub push_remote-Stays : (force : Bool) → Stays (Calm Local) (push_remote p force)
  unfolding push_remote
  push_remote-Stays force = record { at = λ s h. (push_if-Stays force s.arch.remote h.0).at s h }

  record_segment-Stays : (name : Bytes) → Stays (Calm Local) (record_segment p name)
  unfolding record_segment
  record_segment-Stays name = Triple-bind (in_world now) _ (outside Local now now-Stays) λ t.
      record {
        at = λ s h.
            (Triple-bind (write_manifest p) (λ _. push_quietly p) (write_manifest-Stays Local p)
                λ _. push_quietly-Stays).at
              _ h;
      }

  seal-Stays : (name : Bytes) → Stays (Calm Local) (seal p name)
  unfolding seal
  seal-Stays name =
      Triple-bind (in_world (touch sync_file)) _
        (outside Local (touch sync_file) (touch-Stays sync_file))
        λ _.
          Triple-bind (in_world (touch close_file)) _
            (outside Local (touch close_file) (touch-Stays close_file))
            λ _. record { at = λ s h. (record_segment-Stays name).at _ h }

  rotate_from-Stays :
      (cur : Option Bytes) (count : ℕ) → Stays (Calm Local) (rotate_from p cur count)
  unfolding rotate_from
  rotate_from-Stays none count = Triple-pure tt (λ s h. h)
  rotate_from-Stays (some name) count =
      Triple-if (count == 0) _ _ (Triple-pure tt (λ s h. h)) (seal-Stays name)

  pub rotate-Stays : Stays (Calm Local) (rotate p)
  unfolding rotate
  rotate-Stays = record { at = λ s h. (rotate_from-Stays s.arch.cur s.arch.cur_count).at s h }

  create_segment-Opens : (seq : ℕ) → Succeeds (Calm Local) (create_segment p seq) (λ _. Calm Open)
  unfolding create_segment
  create_segment-Opens seq =
      Triple-bind (in_world (create (segment_name seq))) _
        (outside Local (create (segment_name seq)) (create-Stays (segment_name seq)))
        λ _. record { at = λ s (h, w). ((h, (segment_name seq, refl)), w) }

  open_if-Opens :
      (cur : Option Bytes)
      → Succeeds (λ s. (s.arch.cur ≡ cur) × Calm Local s) (open_if p cur) (λ _. Calm Open)
  unfolding open_if open_segment
  open_if-Opens none = record { at = λ s h. (create_segment-Opens _).at _ h.1 }
  open_if-Opens (some name) = Triple-pure tt (λ s (e, (h, w)). ((h, (name, e)), w))

  ensure_open-Opens : Succeeds (Calm Local) (ensure_open p) (λ _. Calm Open)
  unfolding ensure_open
  ensure_open-Opens = record { at = λ s h. (open_if-Opens s.arch.cur).at s (refl, h) }

  append_to-Stays : (c : Change) (b name : Bytes) → Stays (Calm Local) (append_to p c b (some name))
  unfolding append_to write_record rotate_full
  append_to-Stays c b name =
      Triple-bind (in_world (write_end name b)) _
        (outside Local (write_end name b) (write_end-Stays name b))
        λ _. record {
          at = λ s h.
              let a = counted p c b s.arch in
              (Triple-if (leb a.max_bytes a.cur_bytes) (rotate p) (pure tt) rotate-Stays
                  (Triple-pure tt (λ s h. h))).at
                (record s { arch = a }) h;
        }

  append_open-Stays :
      (c : Change) (b : Bytes) (cur : Option Bytes) (name : Bytes)
      → cur ≡ some name
      → Stays (Calm Local) (append_to p c b cur)
  append_open-Stays c b none name e = absurd (ground (arith, e))
  append_open-Stays c b (some other) name e = append_to-Stays c b other

  pub append-Stays : (c : Change) → Stays (Calm Local) (append p c)
  unfolding append
  append-Stays c = Triple-bind (ensure_open p) _ ensure_open-Opens λ _. record {
    at = λ s ((h, (name, e)), w).
        (append_open-Stays c (p.encode_change c ++ b'\n' ∷ []) s.arch.cur name e).at s (h, w);
  }

  pub close-Stays : Stays (Calm Local) (close p)
  unfolding close
  close-Stays =
      Triple-bind (rotate p) (λ _. push_remote p true) rotate-Stays λ _. push_remote-Stays true
