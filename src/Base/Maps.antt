-- ===== src/Base/Maps.antt =====
-- Maps with byte-string keys: Go's `map[string]V`, a directory, a bucket.
use pgvolvra.Base.Tests.{if◌then◌else◌}
use pgvolvra.Base.Text.{beq_refl, Bytes, beq, beq_iff}
use mathlib.Core.Path.{◌≡◌, refl, ap, ◌∙◌}
use mathlib.Core.Logic.{◌≢◌}
use mathlib.Core.Option.{Option, none, some}
use mathlib.Core.List.{List, [], ◌∷◌}
use native.Mathlib.Omega.{arith}

abbrev pub Assoc {ℓ} : Type ℓ → Type ℓ
Assoc V = List (Bytes × V)

module _ {ℓ} {V : Type ℓ} where
  unfoldable pub lookup : Bytes → Assoc V → Option V
  lookup k [] = none
  lookup k ((j, v) ∷ m) = if beq j k then some v else lookup k m

  -- A later write of a key replaces the earlier one in its place.
  unfoldable pub insert : Bytes → V → Assoc V → Assoc V
  insert k v [] = (k, v) ∷ []
  insert k v ((j, w) ∷ m) = if beq j k then (k, v) ∷ m else (j, w) ∷ insert k v m

  pub lookup-insert :
      (k j : Bytes) (v : V) (m : Assoc V)
      → lookup j (insert k v m) ≡ (if beq k j then some v else lookup j m)
  unfolding lookup insert
  lookup-insert k j v [] = refl
  lookup-insert k j v ((i, w) ∷ m) =
      ground (arith, beq_iff k j, beq_iff i k, beq_iff i j, lookup-insert k j v m)

  pub lookup-insert_self : (k : Bytes) (v : V) (m : Assoc V) → lookup k (insert k v m) ≡ some v
  lookup-insert_self k v m = rw (lookup-insert, beq_refl)

  -- A removed key; every entry of it goes.
  unfoldable pub remove : Bytes → Assoc V → Assoc V
  remove k [] = []
  remove k ((j, v) ∷ m) = let rest = remove k m in if beq j k then rest else (j, v) ∷ rest

  pub lookup-remove :
      (k j : Bytes) (m : Assoc V) → lookup j (remove k m) ≡ (if beq k j then none else lookup j m)
  unfolding lookup remove
  lookup-remove k j [] = ground arith
  lookup-remove k j ((i, w) ∷ m) =
      ground (arith, beq_iff k j, beq_iff i k, beq_iff i j, lookup-remove k j m)

-- The text at a key, empty where there is none.
abbrev pub get_text : Bytes → Assoc Bytes → Bytes
get_text k m = elim (lookup k m) [ none ↦ [] | some b ↦ b ]

get_text-insert : (k b : Bytes) (m : Assoc Bytes) → get_text k (insert k b m) ≡ b
get_text-insert k b m = ground (arith, lookup-insert_self k b m)

-- A map in which the value at `from` was moved to `to`.
abbrev pub moved : Bytes → Bytes → Assoc Bytes → Assoc Bytes
moved from to m = insert to (get_text from m) (remove from m)

pub lookup-insert_ne {ℓ} :
    {V : Type ℓ} (k j : Bytes) (v : V) (m : Assoc V) → j ≢ k → lookup j (insert k v m) ≡ lookup j m
lookup-insert_ne k j v m ne = ground (arith, lookup-insert k j v m, beq_iff k j)

lookup-remove_ne {ℓ} :
    {V : Type ℓ} (k j : Bytes) (m : Assoc V) → j ≢ k → lookup j (remove k m) ≡ lookup j m
lookup-remove_ne k j m ne = ground (arith, lookup-remove k j m, beq_iff k j)

pub lookup-moved_to :
    (from to b : Bytes) (m : Assoc Bytes) → lookup to (moved from to (insert from b m)) ≡ some b
lookup-moved_to from to b m =
    lookup-insert_self to (get_text from (insert from b m)) (remove from (insert from b m))
    ∙ ap some (get_text-insert from b m)

pub lookup-moved_ne :
    (from to b n : Bytes) (m : Assoc Bytes)
    → n ≢ to
    → n ≢ from
    → lookup n (moved from to (insert from b m)) ≡ lookup n m
lookup-moved_ne from to b n m ne nf =
    lookup-insert_ne to n (get_text from (insert from b m)) (remove from (insert from b m)) ne
    ∙ lookup-remove_ne from n (insert from b m) nf
    ∙ lookup-insert_ne from n b m nf
