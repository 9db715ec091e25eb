-- ===== src/Tests/Buckets.antt =====
-- The theorems on the bucket's options and keys at concrete texts.
use pgvolvra.Base.{◌≡◌, refl, ◌↔◌, inr, ◌++◌, Bytes, codes}
use pgvolvra.Exec.{ok}
use pgvolvra.Remote.{readback}
use pgvolvra.Remote.Making.{lower, resolve_checksum}
use pgvolvra.Remote.Hosts.{IsGoogle, IsAuto, resolve_checksum-IsGoogle}
use pgvolvra.Remote.Injective.{IsPlain, key-injective}

abbrev host : Bytes
host = codes "Storage.GoogleAPIs.com"

by_endpoint : IsAuto (codes "Auto")
unfolding lower
by_endpoint = inr refl

resolve_checksum-IsGoogle_example :
    (resolve_checksum (codes "Auto") (host ++ codes ":443") ≡ ok readback) ↔ IsGoogle (lower host)
resolve_checksum-IsGoogle_example =
    resolve_checksum-IsGoogle (codes "Auto") host (codes ":443") by_endpoint
      (
        refl,
        (
          refl,
          (
            refl,
            (
              refl,
              (
                refl,
                (
                  refl,
                  (
                    refl,
                    (
                      refl,
                      (
                        refl,
                        (
                          refl,
                          (
                            refl,
                            (
                              refl,
                              (
                                refl,
                                (
                                  refl,
                                  (
                                    refl,
                                    (refl, (refl, (refl, (refl, (refl, (refl, (refl, tt))))))),
                                  ),
                                ),
                              ),
                            ),
                          ),
                        ),
                      ),
                    ),
                  ),
                ),
              ),
            ),
          ),
        ),
      )
      (inr (codes "443", refl))

plain : IsPlain (codes "manifest.json")
plain = record {
  no_slash = (
    refl,
    (
      refl,
      (refl, (refl, (refl, (refl, (refl, (refl, (refl, (refl, (refl, (refl, (refl, tt))))))))))),
    ),
  );
  not_here = refl;
  not_up = refl;
}

key-injective_example : codes "manifest.json" ≡ codes "manifest.json"
key-injective_example =
    key-injective (codes "a//b/../volvra") (codes "manifest.json") (codes "manifest.json") plain
      plain refl
