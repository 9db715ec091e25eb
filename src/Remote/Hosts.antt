-- ===== src/Remote/Hosts.antt =====
-- On the hosts whose uploads are read back (companion/remote.go, resolveChecksum).
use pgvolvra.Base.{
  ℕ, ℕ, ◌≡◌, refl, sym, subst, ap, ◌↔◌, ◌⊎◌, inl, inr, Bool, true, false, ◌||◌, [], ◌∷◌, ◌++◌,
  Bytes, codes, beq, beq_iff, beq_refl, ◌==◌, if◌then◌else◌, All, arith, Bool-cases,
}
use pgvolvra.Exec.{ok}
use pgvolvra.Remote.{server, readback}
use pgvolvra.Remote.Making.{
  lower_one, lower, host_of, has_suffix, google, endpoint_needs_readback, resolve_checksum,
}

-- Google's host, or one of its subdomains.
abbrev pub IsGoogle : Bytes → Type 0
IsGoogle host = (host ≡ google) ⊎ ((sub : Bytes) × (host ≡ sub ++ (b'.' ∷ google)))

has_suffix-append : (sub suffix : Bytes) → has_suffix (sub ++ suffix) suffix ≡ true
unfolding has_suffix
has_suffix-append [] [] = refl
has_suffix-append [] (c ∷ cs) = rw (beq_refl (c ∷ cs)) refl
has_suffix-append (b ∷ sub) suffix = ground (arith, has_suffix-append sub suffix)

suffix_of : (s suffix : Bytes) → has_suffix s suffix ≡ true → (sub : Bytes) × (s ≡ sub ++ suffix)
unfolding has_suffix
suffix_of [] suffix h = ([], (beq_iff [] suffix).0 h)
suffix_of (b ∷ bs) suffix h = elim (Bool-cases (beq (b ∷ bs) suffix)) [
  | inl e ↦ ([], (beq_iff (b ∷ bs) suffix).0 e)
  | inr e ↦ let (sub, f) = suffix_of bs suffix (rw e at h) in (b ∷ sub, ap (λ l. b ∷ l) f)
]

google_iff :
    (host : Bytes) → ((beq host google || has_suffix host (b'.' ∷ google)) ≡ true) ↔ IsGoogle host
google_iff host = (
  λ h. elim (Bool-cases (beq host google)) [
    | inl e ↦ inl ((beq_iff host google).0 e)
    | inr e ↦ inr (suffix_of host (b'.' ∷ google) (rw e at h))
  ],
  λ h. elim h [
    | inl e ↦ rw ((beq_iff host google).1 e) refl
    | inr (sub, e) ↦ elim (Bool-cases (beq host google)) [
      | inl f ↦ rw f refl
      | inr f ↦ rw f (
          subst (λ l. has_suffix l (b'.' ∷ google) ≡ true) (sym e)
            (has_suffix-append sub (b'.' ∷ google)))
    ]
  ],
)

abbrev pub NoColon : Bytes → Type 0
NoColon host = All (λ b. (b == b':') ≡ false) host

-- Nothing, or a port.
abbrev pub IsPort : Bytes → Type 0
IsPort rest = (rest ≡ []) ⊎ ((port : Bytes) × (rest ≡ b':' ∷ port))

lower_one-colon : (b : ℕ) → (b == b':') ≡ false → (lower_one b == b':') ≡ false
lower_one-colon b h = ground (arith, h)

host_of-port : (rest : Bytes) → IsPort rest → host_of (lower rest) ≡ []
unfolding host_of lower
host_of-port rest (inl e) = rw e refl
host_of-port rest (inr (port, e)) = rw e refl

host_of-lower :
    (host rest : Bytes) → NoColon host → IsPort rest → host_of (lower (host ++ rest)) ≡ lower host
unfolding host_of lower
host_of-lower [] rest n r = host_of-port rest r
host_of-lower (b ∷ host) rest (n, ns) r =
    rw (lower_one-colon b n) (ap (λ l. lower_one b ∷ l) (host_of-lower host rest ns r))

-- The mode is to be chosen by the endpoint.
abbrev pub IsAuto : Bytes → Type 0
IsAuto mode = (lower mode ≡ []) ⊎ (lower mode ≡ codes "auto")

resolve_checksum-auto :
    (mode endpoint : Bytes)
    → IsAuto mode
    → resolve_checksum mode endpoint
      ≡ (if endpoint_needs_readback endpoint then ok readback else ok server)
unfolding resolve_checksum
resolve_checksum-auto mode endpoint (inl e) = rw e refl
resolve_checksum-auto mode endpoint (inr e) = rw e refl

readback_if : (b : Bool) → ((if b then ok readback else ok server) ≡ ok readback) ↔ (b ≡ true)
readback_if true = (λ h. refl, λ h. refl)
readback_if false = (λ h. absurd (ground (arith, h)), λ h. absurd (ground (arith, h)))

-- Where the mode is left to the endpoint, uploads are read back exactly when its host, in any case of
-- letters and whatever its port, is Google's or one of its subdomains.
pub resolve_checksum-IsGoogle :
    (mode host rest : Bytes)
    → IsAuto mode
    → NoColon host
    → IsPort rest
    → (resolve_checksum mode (host ++ rest) ≡ ok readback) ↔ IsGoogle (lower host)
unfolding endpoint_needs_readback
resolve_checksum-IsGoogle mode host rest auto n r =
    let g = google_iff (lower host) in
    rw (resolve_checksum-auto mode (host ++ rest) auto, host_of-lower host rest n r)
      (λ h. g.0 ((readback_if _).0 h), λ h. (readback_if _).1 (g.1 h))
