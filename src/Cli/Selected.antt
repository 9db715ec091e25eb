-- ===== src/Cli/Selected.antt =====
-- On the parser of the selector (cli/selector.go).
use pgvolvra.Base.{
  some, Option, subst, not, ◌&&◌, ◌≡◌, refl, sym, ◌∙◌, ap, ◌⊎◌, inl, inr, Bool, true, false, none,
  List, [], ◌∷◌, ◌++◌, Bytes, is_empty, beq, if◌then◌else◌, arith,
}
use pgvolvra.Exec.{Error, Outcome, ok, err, unknown_option, and_then}
use pgvolvra.Exec.Laws.{and_then-ok, ok-injective}
use pgvolvra.Cli.Selector.{
  Selector, blank, is_blank, Flag, flag_name, flag_of, set_flag, skip_name, parse_args, is_int64,
  checked, parse,
}

-- What a selector must satisfy for a command to go on with it.
pub record Valid (s : Selector) : Type 0 where
  pub selects : is_blank s ≡ false
  pub one_start : (s.mark ≡ []) ⊎ (s.since ≡ [])
  pub txid_number : (s.txid ≡ []) ⊎ (is_int64 s.txid ≡ true)
  pub limit_number : (s.max_rows ≡ []) ⊎ (is_int64 s.max_rows ≡ true)

abbrev Options : Type 0
Options = List (Flag × Bytes)

abbrev pub written : Options → List Bytes
written [] = []
written ((f, v) ∷ os) = flag_name f ∷ v ∷ written os

abbrev given : Options → Selector → Selector
given [] s = s
given ((f, v) ∷ os) s = given os (set_flag f v s)

parse_args-flag_name :
    (f : Flag) (v : Bytes) (rest : List Bytes) (s : Selector)
    → parse_args (flag_name f ∷ v ∷ rest) s ≡ parse_args rest (set_flag f v s)
unfolding parse_args flag_of flag_name
parse_args-flag_name Flag.table v rest s = refl
parse_args-flag_name Flag.txid v rest s = refl
parse_args-flag_name Flag.since v rest s = refl
parse_args-flag_name Flag.until v rest s = refl
parse_args-flag_name Flag.actor v rest s = refl
parse_args-flag_name Flag.user v rest s = refl
parse_args-flag_name Flag.where_ v rest s = refl
parse_args-flag_name Flag.to v rest s = refl
parse_args-flag_name Flag.max_rows v rest s = refl

parse_args-written :
    (os : Options) (rest : List Bytes) (s : Selector)
    → parse_args (written os ++ rest) s ≡ parse_args rest (given os s)
parse_args-written [] rest s = refl
parse_args-written ((f, v) ∷ os) rest s =
    parse_args-flag_name f v (written os ++ rest) s ∙ parse_args-written os rest (set_flag f v s)

-- The options of a selector, those that are not empty.
abbrev spoken : Flag → Bytes → Options
spoken f [] = []
spoken f (b ∷ v) = (f, b ∷ v) ∷ []

abbrev pub options : Selector → Options
options s =
    spoken Flag.table s.table
    ++ (spoken Flag.txid s.txid
        ++ (spoken Flag.since s.since
            ++ (spoken Flag.until s.until
                ++ (spoken Flag.actor s.actor
                    ++ (spoken Flag.user s.user
                        ++ (spoken Flag.where_ s.where_
                            ++ (spoken Flag.to s.mark ++ spoken Flag.max_rows s.max_rows)))))))

given-spoken :
    (f : Flag) (v : Bytes) (os : Options) (s : Selector)
    → set_flag f [] s ≡ s
    → given (spoken f v ++ os) s ≡ given os (set_flag f v s)
given-spoken f [] os s e = ap (given os) (sym e)
given-spoken f (b ∷ v) os s e = refl

given-last :
    (f : Flag) (v : Bytes) (s : Selector)
    → set_flag f [] s ≡ s
    → given (spoken f v) s ≡ set_flag f v s
given-last f [] s e = sym e
given-last f (b ∷ v) s e = refl

abbrev switches : Bool → List Bytes
switches true = skip_name ∷ []
switches false = []

-- The arguments that say a selector.
abbrev pub arguments : Selector → List Bytes
arguments s = written (options s) ++ switches s.skip_confl

given-options : (s : Selector) → given (options s) blank ≡ record s { skip_confl = false }
unfolding set_flag
given-options s =
    given-spoken Flag.table s.table _ blank refl
    ∙ given-spoken Flag.txid s.txid _ _ refl
    ∙ given-spoken Flag.since s.since _ _ refl
    ∙ given-spoken Flag.until s.until _ _ refl
    ∙ given-spoken Flag.actor s.actor _ _ refl
    ∙ given-spoken Flag.user s.user _ _ refl
    ∙ given-spoken Flag.where_ s.where_ _ _ refl
    ∙ given-spoken Flag.to s.mark _ _ refl
    ∙ given-last Flag.max_rows s.max_rows _ refl

parse_args-switches :
    (b : Bool) (s : Selector)
    → parse_args (switches b) (record s { skip_confl = false }) ≡ ok (record s { skip_confl = b })
unfolding parse_args flag_of flag_name
parse_args-switches true s = refl
parse_args-switches false s = refl

-- A selector that was written out is read back, and goes through the checks.
pub parse-arguments : (s : Selector) → parse (arguments s) ≡ checked s
unfolding parse
parse-arguments s =
    ap (λ r. and_then r checked)
      (parse_args-written (options s) (switches s.skip_confl) blank
        ∙ ap (parse_args (switches s.skip_confl)) (given-options s)
        ∙ parse_args-switches s.skip_confl s)

parse_args-unknown :
    (a : Bytes) (rest : List Bytes) (s : Selector)
    → flag_of a ≡ none
    → beq a skip_name ≡ false
    → parse_args (a ∷ rest) s ≡ err (unknown_option a)
unfolding parse_args flag_of
parse_args-unknown a [] s unknown other = rw (unknown, other) refl
parse_args-unknown a (v ∷ rest) s unknown other = rw (unknown, other) refl

-- An option of a selector with its value, or the one that has none.
abbrev pub Item : Type 0
Item = Option (Flag × Bytes)

abbrev pub said : List Item → List Bytes
said [] = []
said (none ∷ items) = skip_name ∷ said items
said (some (f, v) ∷ items) = flag_name f ∷ v ∷ said items

abbrev heard : List Item → Selector → Selector
heard [] s = s
heard (none ∷ items) s = heard items (record s { skip_confl = true })
heard (some (f, v) ∷ items) s = heard items (set_flag f v s)

parse_args-skip_name :
    (rest : List Bytes) (s : Selector)
    → parse_args (skip_name ∷ rest) s ≡ parse_args rest (record s { skip_confl = true })
unfolding parse_args flag_of flag_name
parse_args-skip_name [] s = refl
parse_args-skip_name (v ∷ rest) s = refl

parse_args-said :
    (items : List Item) (rest : List Bytes) (s : Selector)
    → parse_args (said items ++ rest) s ≡ parse_args rest (heard items s)
unfolding flag_name
parse_args-said [] rest s = refl
parse_args-said (none ∷ items) rest s =
    parse_args-skip_name (said items ++ rest) s
    ∙ parse_args-said items rest (record s { skip_confl = true })
parse_args-said (some (f, v) ∷ items) rest s =
    parse_args-flag_name f v (said items ++ rest) s ∙ parse_args-said items rest (set_flag f v s)

-- Behind any known options with any values, in any order and however often, `--skip-conflicts` among
-- them, an argument in an option's place that is not a known one is refused, whatever follows it.
pub parse-unknown :
    (items : List Item) (a : Bytes) (rest : List Bytes)
    → flag_of a ≡ none
    → beq a skip_name ≡ false
    → parse (said items ++ a ∷ rest) ≡ err (unknown_option a)
unfolding parse
parse-unknown items a rest unknown other =
    ap (λ r. and_then r checked)
      (parse_args-said items (a ∷ rest) blank ∙ parse_args-unknown a rest _ unknown other)

-- The next check.
passes :
    (c : Bool) (e : Error) (rest : Outcome Selector) (s : Selector)
    → (if c then err e else rest) ≡ ok s
    → (c ≡ false) × (rest ≡ ok s)
passes true e rest s h = absurd (ground (arith, h))
passes false e rest s h = (refl, h)

not_both : (a b : Bytes) → (not (is_empty a) && not (is_empty b)) ≡ false → (a ≡ []) ⊎ (b ≡ [])
not_both [] b h = inl refl
not_both (x ∷ a) [] h = inr refl
not_both (x ∷ a) (y ∷ b) h = absurd (ground (arith, h))

if_given :
    (a : Bytes) → (not (is_empty a) && not (is_int64 a)) ≡ false → (a ≡ []) ⊎ (is_int64 a ≡ true)
if_given [] h = inl refl
if_given (x ∷ a) h = inr (ground (arith, h))

checked-Valid : (t s : Selector) → checked t ≡ ok s → Valid s
unfolding checked is_blank
checked-Valid t s e =
    let (selects, e) = passes (is_blank t) _ _ s e in
    let (one_start, e) = passes (not (is_empty t.mark) && not (is_empty t.since)) _ _ s e in
    let (txid_number, e) = passes (not (is_empty t.txid) && not (is_int64 t.txid)) _ _ s e in
    let (limit_number, e) =
      passes (not (is_empty t.max_rows) && not (is_int64 t.max_rows)) _ _ s e in
    subst Valid (ok-injective t s e) (record {
      selects = selects;
      one_start = not_both t.mark t.since one_start;
      txid_number = if_given t.txid txid_number;
      limit_number = if_given t.max_rows limit_number;
    })

-- A selector that was accepted names something, has at most one start of its window, and has numbers
-- where numbers are asked for.
pub parse-Valid : (args : List Bytes) (s : Selector) → parse args ≡ ok s → Valid s
unfolding parse
parse-Valid args s e =
    let (t, parsed, e) = and_then-ok (parse_args args blank) checked s e in checked-Valid t s e
