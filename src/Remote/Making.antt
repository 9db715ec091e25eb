-- ===== src/Remote/Making.antt =====
-- The making of the bucket's client (companion/remote.go): how uploads are to be confirmed, the checks at
-- the start, and what the bucket says of object lock. Options and hosts are ASCII.
use pgvolvra.Base.{
  ℕ, ◌+◌, ◌*◌, Bool, true, false, ◌&&◌, ◌||◌, Option, none, some, [], ◌∷◌, Bytes, codes, is_empty,
  beq, leb, ◌==◌, if◌then◌else◌,
}
use mathlib.Core.List.{reverse}
use pgvolvra.Exec.{
  Outcome, ok, err, failed, connect, query, endpoint_required, endpoint_is_url, bad_checksum,
  no_bucket, and_then,
}
use pgvolvra.Remote.{Checksum, server, readback, LockState, Remote}

-- `strings.ToLower`
abbrev pub lower_one : ℕ → ℕ
lower_one b = if leb b'A' b && leb b b'Z' then b + 32 else b

unfoldable pub lower : Bytes → Bytes
lower [] = []
lower (b ∷ bs) = lower_one b ∷ lower bs

-- The part before the first colon, or all.
unfoldable pub host_of : Bytes → Bytes
host_of [] = []
host_of (b ∷ bs) = let rest = host_of bs in if b == b':' then [] else b ∷ rest

-- `strings.HasSuffix`
unfoldable pub has_suffix : Bytes → Bytes → Bool
has_suffix [] suffix = beq [] suffix
has_suffix (b ∷ bs) suffix = beq (b ∷ bs) suffix || has_suffix bs suffix

-- `strings.HasPrefix` and `strings.Contains`
unfoldable pub has_prefix : Bytes → Bytes → Bool
has_prefix bs [] = true
has_prefix [] (c ∷ cs) = false
has_prefix (b ∷ bs) (c ∷ cs) = b == c && has_prefix bs cs

unfoldable pub contains : Bytes → Bytes → Bool
unfolding has_prefix
contains [] part = has_prefix [] part
contains (b ∷ bs) part = has_prefix (b ∷ bs) part || contains bs part

abbrev pub google : Bytes
google = codes "storage.googleapis.com"

abbrev pub is_google : Bytes → Bool
is_google host = beq host google || has_suffix host (b'.' ∷ google)

-- `endpointNeedsReadback`
unfoldable pub endpoint_needs_readback : Bytes → Bool
unfolding lower host_of has_suffix
endpoint_needs_readback endpoint = is_google (host_of (lower endpoint))

-- `resolveChecksum`
unfoldable pub resolve_checksum : Bytes → Bytes → Outcome Checksum
unfolding lower endpoint_needs_readback
resolve_checksum mode endpoint =
    let m = lower mode in
    if is_empty m || beq m (codes "auto")
    then (if endpoint_needs_readback endpoint then ok readback else ok server)
    else if beq m (codes "server")
    then ok server
    else if beq m (codes "readback")
    then ok readback
    else err (bad_checksum mode)

-- `RemoteOptions`
pub record RemoteOptions : Type 0 where
  pub endpoint : Bytes
  pub bucket : Bytes
  pub prefix : Bytes
  pub region : Bytes
  pub insecure : Bool
  pub checksum : Bytes

-- What the provider answers: whether the client can be made, whether the bucket exists, `none` for an
-- error, the mode of its object lock, `none` for an error or none, with the validity in days or years.
pub record Provider : Type 0 where
  pub accepts : Bool
  pub exists : Option Bool
  pub lock_mode : Option Bytes
  pub validity : Option ℕ
  pub in_years : Bool

abbrev pub no_lock : LockState
no_lock = record { enabled = false; mode = []; days = 0; source = [] }

abbrev pub lock_days : Option ℕ → Bool → ℕ
lock_days none in_years = 0
lock_days (some n) in_years = if in_years then n * 365 else n

-- `resolveLock`
unfoldable pub resolve_lock : Option Bytes → Option ℕ → Bool → LockState
resolve_lock none validity in_years = no_lock
resolve_lock (some []) validity in_years = no_lock
resolve_lock (some (b ∷ bs)) validity in_years = record {
  enabled = true;
  mode = b ∷ bs;
  days = lock_days validity in_years;
  source = codes "bucket policy";
}

unfoldable pub drop_slashes : Bytes → Bytes
drop_slashes [] = []
drop_slashes (b ∷ bs) = let rest = drop_slashes bs in if b == b'/' then rest else b ∷ bs

-- `strings.Trim(…, "/")`
unfoldable pub trim_slashes : Bytes → Bytes
unfolding drop_slashes
trim_slashes bs = reverse (drop_slashes (reverse (drop_slashes bs)))

abbrev pub made : RemoteOptions → Provider → Checksum → Option Bool → Outcome Remote
made o q mode none = err (failed query)
made o q mode (some false) = err no_bucket
made o q mode (some true) = ok (record {
  bucket_name = o.bucket;
  prefix = trim_slashes o.prefix;
  lock = resolve_lock q.lock_mode q.validity q.in_years;
  checksum = mode;
})

abbrev pub reached : RemoteOptions → Provider → Checksum → Outcome Remote
reached o q mode = if q.accepts then made o q mode q.exists else err (failed connect)

-- `NewRemote`
unfoldable pub new_remote : RemoteOptions → Provider → Outcome Remote
unfolding contains resolve_checksum trim_slashes resolve_lock
new_remote o q =
    if is_empty o.endpoint
    then err endpoint_required
    else if contains o.endpoint (codes "://")
    then err endpoint_is_url
    else and_then (resolve_checksum o.checksum o.endpoint) (reached o q)
