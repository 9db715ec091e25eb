-- ===== src/Remote/Injective.antt =====
-- On the keys of different members of the archive (companion/remote.go, key).
use pgvolvra.Base.{
  ◌≡◌, refl, sym, ◌∙◌, ap, false, List, [], ◌∷◌, ◌++◌, append_assoc, append-nil, Bytes, ◌==◌, All,
  Bool-cases, inl, inr,
}
use mathlib.Core.List.{reverse, append_cancel_left, reverse-cons}
use pgvolvra.Remote.Keys.{split_from, is_here, is_up, step, resolve, join, or_here, clean, key}

-- A name that is one element of a path.
pub record IsPlain (name : Bytes) : Type 0 where
  pub no_slash : All (λ b. (b == b'/') ≡ false) name
  pub not_here : is_here name ≡ false
  pub not_up : is_up name ≡ false

split_from-plain :
    (cur name : Bytes)
    → All (λ b. (b == b'/') ≡ false) name
    → split_from cur name ≡ (cur ++ name) ∷ []
unfolding split_from
split_from-plain cur [] h = ap (λ e. e ∷ []) (sym (append-nil cur))
split_from-plain cur (b ∷ name) (s, h) =
    rw s
      (split_from-plain (cur ++ b ∷ []) name h ∙ ap (λ e. e ∷ []) (append_assoc cur (b ∷ []) name))

split_from-behind :
    (cur prefix name : Bytes)
    → All (λ b. (b == b'/') ≡ false) name
    → split_from cur (prefix ++ (b'/' ∷ name)) ≡ split_from cur prefix ++ name ∷ []
unfolding split_from
split_from-behind cur [] name h = ap (λ l. cur ∷ l) (split_from-plain [] name h)
split_from-behind cur (b ∷ prefix) name h = elim (Bool-cases (b == b'/')) [
  | inl e ↦ rw e (ap (λ l. cur ∷ l) (split_from-behind [] prefix name h))
  | inr e ↦ rw e (split_from-behind (cur ++ b ∷ []) prefix name h)
]

resolve-behind :
    (kept es : List Bytes) (name : Bytes)
    → IsPlain name
    → resolve kept (es ++ name ∷ []) ≡ name ∷ resolve kept es
unfolding resolve
resolve-behind kept [] name h = rw (h.not_here, h.not_up) refl
resolve-behind kept (e ∷ es) name h = resolve-behind (step e kept) es name h

or_here-behind :
    (es : List Bytes) (name : Bytes) → or_here (es ++ name ∷ []) ≡ join (es ++ name ∷ [])
unfolding join
or_here-behind [] name = refl
or_here-behind (e ∷ es) name = refl

join-behind : (es : List Bytes) (n m : Bytes) → join (es ++ n ∷ []) ≡ join (es ++ m ∷ []) → n ≡ m
unfolding join
join-behind [] n m h = h
join-behind (e ∷ []) n m h = append_cancel_left (b'/' ∷ []) n m (append_cancel_left e _ _ h)
join-behind (e ∷ f ∷ es) n m h =
    join-behind (f ∷ es) n m (append_cancel_left (b'/' ∷ []) _ _ (append_cancel_left e _ _ h))

-- What stands before the name.
abbrev before : Bytes → List Bytes
before prefix = reverse (resolve [] (split_from [] prefix))

clean-behind :
    (prefix name : Bytes)
    → IsPlain name
    → clean (prefix ++ (b'/' ∷ name)) ≡ join (before prefix ++ name ∷ [])
unfolding clean
clean-behind prefix name h =
    ap (λ l. or_here (reverse (resolve [] l))) (split_from-behind [] prefix name h.no_slash)
    ∙ ap (λ l. or_here (reverse l)) (resolve-behind [] (split_from [] prefix) name h)
    ∙ ap or_here (reverse-cons name (resolve [] (split_from [] prefix)))
    ∙ or_here-behind (before prefix) name

-- Whatever the prefix is, dots and doubled slashes included, two members with the same key have the
-- same name, if their names are single elements of a path.
pub key-injective :
    (prefix n m : Bytes) → IsPlain n → IsPlain m → key prefix n ≡ key prefix m → n ≡ m
unfolding key
key-injective [] n m hn hm h = h
key-injective (b ∷ bs) n m hn hm h =
    join-behind (before (b ∷ bs)) n m
      (sym (clean-behind (b ∷ bs) n hn) ∙ h ∙ clean-behind (b ∷ bs) m hm)
