-- ===== src/Tests/States.antt =====
-- Concrete states: an archive of one sealed segment, one with a segment open, and one that was
-- uploaded.
use pgvolvra.Base.{
  ℕ, ◌≡◌, refl, sym, ◌∙◌, inl, inr, false, none, some, List, [], ◌∷◌, ◌++◌, Bytes, Assoc, codes,
  lookup, insert, lookup-insert_self, lookup-insert_ne, arith,
}
use mathlib.Core.Option.{some-injective}
use pgvolvra.Format.{Change, Segment, Manifest}
use pgvolvra.Format.Names.{segment_name, manifest_name, segment_name-ne-manifest_name}
use pgvolvra.World.{World}
use pgvolvra.World.Laws.{IsHonest}
use pgvolvra.Remote.{Remote, readback, digest}
use pgvolvra.Archive.{Archive, Sys}
use pgvolvra.Archive.History.{render}
use pgvolvra.Archive.Durable.{Durable, Safe}
use pgvolvra.Archive.Uploading.{written-Names, written-Listed}
use pgvolvra.Tests.Toy.{toy, toy-IsFaithful}

abbrev pub change : Change
change = record {
  lsn = 5 ∷ [];
  xid = 12;
  commit_ts = 3;
  table = codes "\"public\".\"t\"";
  op = codes "I";
  pk = codes "{}";
  old = [];
  new = codes "{}";
  gap = false;
  from_lsn = [];
  to_lsn = [];
  reason = [];
}

abbrev pub history : List Change
history = change ∷ []

abbrev pub text : Bytes
text = render toy history

abbrev pub sum : Bytes
sum = digest toy text

-- The first segment, uploaded or not.
abbrev pub segment : Bytes → Segment
segment uploaded_at = record {
  seq = 1;
  file = segment_name 1;
  start_lsn = 5 ∷ [];
  end_lsn = 5 ∷ [];
  changes = 1;
  bytes = 60;
  sha256 = sum;
  prev = [];
  chain = digest toy (b'|' ∷ sum);
  sealed_at = 8 ∷ [];
  uploaded_at = uploaded_at;
  remote_key = [];
  remote_etag = [];
}

abbrev pub manifest : List Segment → Manifest
manifest segs = record {
  archive = codes "volvra";
  format = 1;
  slot = codes "volvra";
  publication = codes "volvra";
  created_at = 1 ∷ [];
  segments = segs;
}

abbrev pub remote : Remote
remote = record {
  bucket_name = codes "b";
  prefix = [];
  lock = record { enabled = false; mode = []; days = 0; source = [] };
  checksum = readback;
}

abbrev pub closed : List Segment → ℕ → Archive
closed segs covered = record {
  man = manifest segs;
  cur = none;
  cur_seq = 1;
  cur_start = [];
  cur_end = [];
  cur_count = 0;
  cur_bytes = 0;
  hashed = [];
  max_bytes = 1000;
  last_push_err = none;
  last_manifest_at = none;
  manifest_seq = covered;
  remote = some remote;
}

abbrev pub world : Assoc Bytes → Assoc Bytes → World
world disk bucket = record {
  disk = disk;
  bucket = bucket;
  calls = 0;
  fails = λ n. false;
  torn = λ n. 0;
  clock = λ n. n;
  carried = λ n b. b;
  reported = λ n b. b;
  etag = λ n. [];
}

pub world-IsHonest : (disk bucket : Assoc Bytes) → IsHonest toy (world disk bucket)
world-IsHonest disk bucket n b raw plain e = sym (some-injective _ _ e)

abbrev pub with_manifest : List Segment → Assoc Bytes
with_manifest segs = insert manifest_name (toy.encode_manifest (manifest segs) ++ b'\n' ∷ []) []

-- The text of the first segment is in its file, the manifest beside it.
abbrev pub disk : List Segment → Assoc Bytes
disk segs = insert (segment_name 1) text (with_manifest segs)

pub manifest_there :
    (segs : List Segment)
    → lookup manifest_name (disk segs) ≡ some (toy.encode_manifest (manifest segs) ++ b'\n' ∷ [])
manifest_there segs =
    lookup-insert_ne (segment_name 1) manifest_name text (with_manifest segs)
      (λ e. segment_name-ne-manifest_name 1 (sym e))
    ∙ lookup-insert_self manifest_name (toy.encode_manifest (manifest segs) ++ b'\n' ∷ []) []

pub text_there : (segs : List Segment) → lookup (segment_name 1) (disk segs) ≡ some text
text_there segs = lookup-insert_self (segment_name 1) text (with_manifest segs)

-- One sealed segment that is not uploaded.
abbrev pub waiting : List Segment
waiting = segment [] ∷ []

abbrev pub sealed_state : Sys
sealed_state = record { arch = closed waiting 0; world = world (disk waiting) [] }

pub sealed_state-Durable : Durable toy history sealed_state
sealed_state-Durable = (
  record {
    numbered = (refl, refl, tt);
    held = ((λ u. absurd (ground (arith, u))), tt);
    covered = inl refl;
    opened = λ name e. absurd (ground (arith, e));
  },
  written-Listed toy toy-IsFaithful history (closed waiting 0) (disk waiting)
      (manifest_there waiting)
      (record {
        sealed = history;
        unsealed = [];
        whole = refl;
        filed = (
          history,
          [],
          refl,
          record {
            in_file = text_there waiting;
            hash = refl;
            count = refl;
            some_change = omega arith;
            starts = refl;
            ends = refl;
            follows = refl;
            chained = refl;
          },
          refl,
        );
        open_file = refl;
      }),
  world-IsHonest (disk waiting) [],
)

-- One change in the open segment.
abbrev pub open_state : Sys
open_state = record {
  arch = record (closed [] 0) {
    cur = some (segment_name 1);
    cur_start = 5 ∷ [];
    cur_end = 5 ∷ [];
    cur_count = 1;
    cur_bytes = 60;
    hashed = text;
  };
  world = world (disk []) [];
}

pub open_state-Durable : Durable toy history open_state
open_state-Durable = (
  record {
    numbered = tt;
    held = tt;
    covered = inl refl;
    opened = λ name e. (sym (some-injective _ _ e), refl);
  },
  written-Listed toy toy-IsFaithful history open_state.arch (disk []) (manifest_there []) (record {
    sealed = [];
    unsealed = history;
    whole = refl;
    filed = refl;
    open_file = (text_there [], refl, refl, refl, refl);
  }),
  world-IsHonest (disk []) [],
)

-- The segment was uploaded, and the bucket has its manifest.
abbrev pub done : List Segment
done = segment (9 ∷ []) ∷ []

abbrev pub bucket : Assoc Bytes
bucket = disk done

abbrev pub uploaded_state : Sys
uploaded_state = record { arch = closed done 1; world = world (disk done) bucket }

pub uploaded_state-Safe : Safe toy uploaded_state
uploaded_state-Safe = (
  record {
    numbered = (refl, refl, tt);
    held = ((λ u. (text, text_there done, refl)), tt);
    covered = inr (
      [],
      written-Names toy toy-IsFaithful history (closed done 1) bucket (manifest_there done),
      omega arith,
    );
    opened = λ name e. absurd (ground (arith, e));
  },
  world-IsHonest (disk done) bucket,
)
