-- ===== src/World/Laws.antt =====
-- What each call out leaves of the bucket and of the directory.
use pgvolvra.Base.{
  true, get_text, take, remove, [], ◌++◌, ℕ, Bool, false, ◌≡◌, refl, sym, ◌∙◌, ap, ◌⊎◌, inl, inr,
  Option, none, some, Bytes, Assoc, lookup, insert, any, ◌==◌, Bool-cases,
}
use pgvolvra.Exec.{Action}
use pgvolvra.Exec.Laws.{After-if, After, Triple}
use pgvolvra.Format.{Platform}
use pgvolvra.World.{
  write_disk, rename, create, write_end, put_file, found_or, store, tick, World, touch, now,
  read_disk, upload, download, UploadInfo, kept,
}

abbrev pub dash : ℕ → Bool
dash b = b == b'-'

found_or-After :
    (Q : Bytes → World → Type 0) (E : World → Type 0) (name : Bytes) (o : Option Bytes) (w : World)
    → ((b : Bytes) → o ≡ some b → Q b w)
    → E w
    → After Q E (found_or name o w)
found_or-After Q E name none w q e = e
found_or-After Q E name (some b) w q e = q b refl

module _ (p : Platform) where
  -- S3's documented checksum: where the answer is no composite one, it is the SHA-256 of the object.
  abbrev pub IsHonest : World → Type 0
  IsHonest w =
      (n : ℕ) (b raw : Bytes)
      → any dash (w.reported n b) ≡ false
      → p.base64_decode (w.reported n b) ≡ some raw
      → raw ≡ p.sha256 b

  -- The bucket and the disk are these.
  pub record At (bucket disk : Assoc Bytes) (w : World) : Type 0 where
    pub bucket_is : w.bucket ≡ bucket
    pub disk_is : w.disk ≡ disk
    pub honest : IsHonest w

  pub tick-At : (B D : Assoc Bytes) (w : World) → At B D w → At B D (tick w)
  tick-At B D w h = record { bucket_is = h.bucket_is; disk_is = h.disk_is; honest = h.honest }

  module _ (B D : Assoc Bytes) where
    pub touch-At : (a : Action) → Triple (At B D) (touch a) (λ _ w. At B D w) (At B D)
    unfolding touch
    touch-At a = record {
      at = λ w h. After-if _ _ (w.fails w.calls) _ _ (λ _. tick-At B D w h) (λ _. tick-At B D w h);
    }

    -- Reading the clock does not fail.
    pub now-At : Triple (At B D) now (λ _ w. At B D w) (λ _. ⊥)
    unfolding now
    now-At = record { at = λ w h. tick-At B D w h }

    pub read_disk-At :
        (name : Bytes)
        → Triple (At B D) (read_disk name) (λ b w. (lookup name D ≡ some b) × At B D w) (At B D)
    unfolding read_disk
    read_disk-At name = record {
      at = λ w h.
          After-if _ _ (w.fails w.calls) _ _ (λ _. tick-At B D w h)
            (λ _.
              found_or-After _ _ name (lookup name w.disk) (tick w)
                (λ b e. (ap (lookup name) (sym h.disk_is) ∙ e, tick-At B D w h)) (tick-At B D w h));
    }

    pub download-At :
        (name : Bytes)
        → Triple (At B D) (download name) (λ b w. (lookup name B ≡ some b) × At B D w) (At B D)
    unfolding download
    download-At name = record {
      at = λ w h.
          After-if _ _ (w.fails w.calls) _ _ (λ _. tick-At B D w h)
            (λ _.
              found_or-After _ _ name (lookup name w.bucket) (tick w)
                (λ b e. (ap (lookup name) (sym h.bucket_is) ∙ e, tick-At B D w h))
                (tick-At B D w h));
    }

    -- The bucket is as it was, or has some text under the name.
    abbrev pub MayHold : Bytes → World → Type 0
    MayHold name w = At B D w ⊎ ((x : Bytes) × At (insert name x B) D w)

    -- The answer belongs to the stored text.
    abbrev pub Answered : Bytes → UploadInfo → Bytes → Type 0
    Answered name info x =
        (raw : Bytes)
        → any dash info.checksum_sha256 ≡ false
        → p.base64_decode info.checksum_sha256 ≡ some raw
        → raw ≡ p.sha256 x

    store-At :
        (md5 : Bool) (name b : Bytes) (w : World)
        → At B D w
        → At (insert name (kept md5 b w) B) D (tick (store md5 name b w))
    store-At md5 name b w h = record {
      bucket_is = ap (insert name (kept md5 b w)) h.bucket_is;
      disk_is = h.disk_is;
      honest = h.honest;
    }

    pub upload-At :
        (md5 : Bool) (name b : Bytes)
        → Triple
            (At B D)
            (upload md5 name b)
            (λ info w. (x : Bytes) × At (insert name x B) D w × Answered name info x)
            (MayHold name)
    unfolding upload
    upload-At md5 name b = record {
      at = λ w h.
          After-if _ _ (w.fails w.calls) _ _
            (λ _. elim (Bool-cases (w.torn w.calls == 0)) [
              | inl e ↦ rw e (inl (tick-At B D w h))
              | inr e ↦ rw e (inr (kept md5 b w, store-At md5 name b w h))
            ])
            (λ _.
              (kept md5 b w, store-At md5 name b w h, λ raw. h.honest w.calls (kept md5 b w) raw));
    }

    put_file-At :
        (name b : Bytes) (w : World) → At B D w → At B (insert name b D) (tick (put_file name b w))
    put_file-At name b w h = record {
      bucket_is = h.bucket_is;
      disk_is = ap (insert name b) h.disk_is;
      honest = h.honest;
    }

    pub write_disk-At :
        (name b : Bytes)
        → Triple
            (At B D)
            (write_disk name b)
            (λ _ w. At B (insert name b D) w)
            (λ w. (x : Bytes) × At B (insert name x D) w)
    unfolding write_disk
    write_disk-At name b = record {
      at = λ w h.
          After-if _ _ (w.fails w.calls) _ _
            (λ _. (take (w.torn w.calls) b, put_file-At name (take (w.torn w.calls) b) w h))
            (λ _. put_file-At name b w h);
    }

    abbrev renamed : Bytes → Bytes → Assoc Bytes
    renamed from to = insert to (get_text from D) (remove from D)

    pub rename-At :
        (from to : Bytes)
        → Triple (At B D) (rename from to) (λ _ w. At B (renamed from to) w) (At B D)
    unfolding rename
    rename-At from to = record {
      at = λ w h.
          After-if _ _ (w.fails w.calls) _ _ (λ _. tick-At B D w h)
            (λ _. record {
              bucket_is = h.bucket_is;
              disk_is = ap (λ d. insert to (get_text from d) (remove from d)) h.disk_is;
              honest = h.honest;
            });
    }

    pub create-At :
        (name : Bytes) → Triple (At B D) (create name) (λ _ w. At B (insert name [] D) w) (At B D)
    unfolding create
    create-At name = record {
      at = λ w h.
          After-if _ _ (w.fails w.calls) _ _ (λ _. tick-At B D w h) (λ _. put_file-At name [] w h);
    }

    -- The file with `b` written at its end.
    abbrev pub extended : Bytes → Bytes → Assoc Bytes
    extended name b = insert name (get_text name D ++ b) D

    extended-At :
        (name b : Bytes) (w : World)
        → At B D w
        → At B (extended name b) (tick (put_file name (get_text name w.disk ++ b) w))
    extended-At name b w h = record {
      bucket_is = h.bucket_is;
      disk_is = ap (λ d. insert name (get_text name d ++ b) d) h.disk_is;
      honest = h.honest;
    }

    pub write_end-At :
        (name b : Bytes)
        → Triple
            (At B D)
            (write_end name b)
            (λ _ w. At B (extended name b) w)
            (λ w. (n : ℕ) × At B (extended name (take n b)) w)
    unfolding write_end
    write_end-At name b = record {
      at = λ w h.
          After-if _ _ (w.fails w.calls) _ _
            (λ _. (w.torn w.calls, extended-At name (take (w.torn w.calls) b) w h))
            (λ _. extended-At name b w h);
    }

    abbrev pub MayHoldExactly : Bytes → Bytes → World → Type 0
    MayHoldExactly name b w = At B D w ⊎ At (insert name b B) D w

    -- With Content-MD5 nothing else is stored.
    pub upload_md5-At :
        (name b : Bytes)
        → Triple
            (At B D)
            (upload true name b)
            (λ _ w. At (insert name b B) D w)
            (MayHoldExactly name b)
    unfolding upload
    upload_md5-At name b = record {
      at = λ w h.
          After-if _ _ (w.fails w.calls) _ _
            (λ _. elim (Bool-cases (w.torn w.calls == 0)) [
              | inl e ↦ rw e (inl (tick-At B D w h))
              | inr e ↦ rw e (inr (store-At true name b w h))
            ])
            (λ _. store-At true name b w h);
    }
