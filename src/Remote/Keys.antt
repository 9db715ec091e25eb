-- ===== src/Remote/Keys.antt =====
-- The key of an object in the bucket (companion/remote.go): the member's name behind the prefix,
-- joined as Go's package path joins them.
use pgvolvra.Base.{
  Bool, ◌||◌, List, [], ◌∷◌, ◌++◌, Bytes, codes, is_empty, beq, ◌==◌, if◌then◌else◌,
}
use mathlib.Core.List.{reverse}

-- The elements between slashes; `cur` is the element so far.
unfoldable pub split_from : Bytes → Bytes → List Bytes
split_from cur [] = cur ∷ []
split_from cur (b ∷ bs) =
    let closed = cur ∷ split_from [] bs in
    let longer = split_from (cur ++ b ∷ []) bs in if b == b'/' then closed else longer

abbrev pub is_here : Bytes → Bool
is_here e = is_empty e || beq e (codes ".")

abbrev pub is_up : Bytes → Bool
is_up e = beq e (codes "..")

-- One element of a path that is not rooted, on the elements kept so far, the last one first.
abbrev pub up : List Bytes → List Bytes
up [] = codes ".." ∷ []
up (e ∷ kept) = if is_up e then codes ".." ∷ e ∷ kept else kept

abbrev pub step : Bytes → List Bytes → List Bytes
step e kept = if is_here e then kept else if is_up e then up kept else e ∷ kept

unfoldable pub resolve : List Bytes → List Bytes → List Bytes
resolve kept [] = kept
resolve kept (e ∷ es) = resolve (step e kept) es

-- Elements with slashes between them.
unfoldable pub join : List Bytes → Bytes
join [] = []
join (e ∷ []) = e
join (e ∷ f ∷ es) = e ++ (b'/' ∷ join (f ∷ es))

abbrev pub or_here : List Bytes → Bytes
or_here [] = codes "."
or_here (e ∷ es) = join (e ∷ es)

-- `path.Clean` of a path that does not begin with a slash
unfoldable pub clean : Bytes → Bytes
unfolding split_from resolve join
clean path = or_here (reverse (resolve [] (split_from [] path)))

-- `key`, with the prefix without slashes at its ends
unfoldable pub key : Bytes → Bytes → Bytes
unfolding clean
key [] name = name
key (b ∷ bs) name = clean ((b ∷ bs) ++ (b'/' ∷ name))
