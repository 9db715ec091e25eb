-- ===== src/Tests/Toy.antt =====
-- A concrete platform: records are written as their fields, each with its length before it, and the
-- digest of a text is the text itself.
use pgvolvra.Base.{
  append-nil, ℕ, zero, suc, ◌+◌, ◌-◌, ◌≡◌, refl, ◌∙◌, ap, Bool, true, false, Option, none, some,
  List, [], ◌∷◌, ◌++◌, append_assoc, Bytes, Assoc, length, any, last?, ◌==◌, arith,
}
use pgvolvra.Format.{Change, Segment, Manifest, Platform, IsFaithful}

-- No number below 11 is written, so that there is no newline.
unfoldable pub shift : Bytes → Bytes
shift [] = []
shift (b ∷ bs) = (b + 11) ∷ shift bs

unfoldable pub field : Bytes → Bytes → Bytes
field f rest = (length f + 11) ∷ shift f ++ rest

unfoldable pub number : ℕ → Bytes → Bytes
number n rest = (n + 11) ∷ rest

unfoldable pub bit : Bool → ℕ
bit true = 1
bit false = 0

module _ {A : Type 0} where
  unfoldable pub read_number : Bytes → (ℕ → Bytes → Option A) → Option A
  read_number [] k = none
  read_number (b ∷ bs) k = k (b - 11) bs

  -- The next bytes of the field, behind those that are read.
  unfoldable pub read_bytes : ℕ → Bytes → Bytes → (Bytes → Bytes → Option A) → Option A
  read_bytes zero got bs k = k got bs
  read_bytes (suc n) got [] k = none
  read_bytes (suc n) got (b ∷ bs) k = read_bytes n (got ++ (b - 11) ∷ []) bs k

  unfoldable pub read_field : Bytes → (Bytes → Bytes → Option A) → Option A
  unfolding read_bytes
  read_field [] k = none
  read_field (b ∷ bs) k = read_bytes (b - 11) [] bs k

  read_number-number :
      (n : ℕ) (rest : Bytes) (k : ℕ → Bytes → Option A) → read_number (number n rest) k ≡ k n rest
  unfolding read_number number
  read_number-number n rest k = ap (λ m. k m rest) (omega arith)

  read_bytes-shift :
      (f got rest : Bytes) (k : Bytes → Bytes → Option A)
      → read_bytes (length f) got (shift f ++ rest) k ≡ k (got ++ f) rest
  unfolding read_bytes shift
  read_bytes-shift [] got rest k = rw append-nil refl
  read_bytes-shift (b ∷ f) got rest k =
      read_bytes-shift f (got ++ (b + 11 - 11) ∷ []) rest k
      ∙ ap (λ g. k g rest)
          (append_assoc got ((b + 11 - 11) ∷ []) f ∙ ap (λ c. got ++ c ∷ f) (omega arith))

  read_field-field :
      (f rest : Bytes) (k : Bytes → Bytes → Option A) → read_field (field f rest) k ≡ k f rest
  unfolding read_field field
  read_field-field f rest k =
      ap (λ n. read_bytes n [] (shift f ++ rest) k) (omega arith) ∙ read_bytes-shift f [] rest k

abbrev brace : Bytes
brace = b'}' ∷ []

unfoldable pub encode : Change → Bytes
encode c = field c.lsn (
    number c.xid (
      number c.commit_ts (
        field c.table (
          field c.op (
            field c.pk (
              field c.old (
                field c.new (
                  number (bit c.gap)
                    (field c.from_lsn (field c.to_lsn (field c.reason brace)))))))))))

unfoldable pub decode : Bytes → Option Change
decode bs = read_field bs λ lsn bs. read_number bs λ xid bs. read_number bs λ ts bs.
    read_field bs λ table bs. read_field bs λ op bs. read_field bs λ pk bs. read_field bs λ old bs.
      read_field bs λ new bs. read_number bs λ gap bs. read_field bs λ from bs.
        read_field bs λ to bs. read_field bs λ reason bs. some (record {
          lsn = lsn;
          xid = xid;
          commit_ts = ts;
          table = table;
          op = op;
          pk = pk;
          old = old;
          new = new;
          gap = gap == 1;
          from_lsn = from;
          to_lsn = to;
          reason = reason;
        })

bit-one : (b : Bool) → (bit b == 1) ≡ b
unfolding bit
bit-one true = refl
bit-one false = refl

decode-encode : (c : Change) → decode (encode c) ≡ some c
unfolding decode encode
decode-encode c = simp (read_field-field, read_number-number, bit-one)

abbrev newline : ℕ → Bool
newline b = b == b'\n'

plain-number : (n : ℕ) (rest : Bytes) → any newline (number n rest) ≡ any newline rest
unfolding number
plain-number n rest = ground arith

plain-shift : (f rest : Bytes) → any newline (shift f ++ rest) ≡ any newline rest
unfolding shift
plain-shift [] rest = refl
plain-shift (b ∷ f) rest = ground (arith, plain-shift f rest)

plain-field : (f rest : Bytes) → any newline (field f rest) ≡ any newline rest
unfolding field
plain-field f rest = ground (arith, plain-shift f rest)

encode-plain : (c : Change) → any newline (encode c) ≡ false
unfolding encode
encode-plain c = simp (plain-number, plain-field)

abbrev Ends : Bytes → Type 0
Ends bs = last? bs ≡ some b'}'

Ends-cons : (b : ℕ) (rest : Bytes) → Ends rest → Ends (b ∷ rest)
Ends-cons b [] h = absurd (ground (arith, h))
Ends-cons b (c ∷ rest) h = h

Ends-number : (n : ℕ) (rest : Bytes) → Ends rest → Ends (number n rest)
unfolding number
Ends-number n rest h = Ends-cons (n + 11) rest h

Ends-shift : (f rest : Bytes) → Ends rest → Ends (shift f ++ rest)
unfolding shift
Ends-shift [] rest h = h
Ends-shift (b ∷ f) rest h = Ends-cons (b + 11) (shift f ++ rest) (Ends-shift f rest h)

Ends-field : (f rest : Bytes) → Ends rest → Ends (field f rest)
unfolding field
Ends-field f rest h = Ends-cons (length f + 11) (shift f ++ rest) (Ends-shift f rest h)

encode-Ends : (c : Change) → Ends (encode c)
unfolding encode
encode-Ends c = Ends-field c.lsn _ (
    Ends-number c.xid _ (
      Ends-number c.commit_ts _ (
        Ends-field c.table _ (
          Ends-field c.op _ (
            Ends-field c.pk _ (
              Ends-field c.old _ (
                Ends-field c.new _ (
                  Ends-number (bit c.gap) _ (
                    Ends-field c.from_lsn _
                      (Ends-field c.to_lsn _ (Ends-field c.reason _ refl)))))))))))

unfoldable pub write_segments : List Segment → Bytes → Bytes
write_segments [] rest = rest
write_segments (s ∷ segs) rest = number s.seq (
    field s.file (
      field s.start_lsn (
        field s.end_lsn (
          number s.changes (
            number s.bytes (
              field s.sha256 (
                field s.prev (
                  field s.chain (
                    field s.sealed_at (
                      field s.uploaded_at (
                        field s.remote_key
                          (field s.remote_etag (write_segments segs rest)))))))))))))

unfoldable pub read_segments :
    ℕ → List Segment → Bytes → (List Segment → Bytes → Option Manifest) → Option Manifest
read_segments zero got bs k = k got bs
read_segments (suc n) got bs k = read_number bs λ seq bs. read_field bs λ file bs.
    read_field bs λ start bs. read_field bs λ end bs. read_number bs λ changes bs.
      read_number bs λ bytes bs. read_field bs λ sha bs. read_field bs λ prev bs.
        read_field bs λ chain bs. read_field bs λ sealed bs. read_field bs λ uploaded bs.
          read_field bs λ key bs. read_field bs λ etag bs.
            read_segments n
              (got
                ++ record {
                  seq = seq;
                  file = file;
                  start_lsn = start;
                  end_lsn = end;
                  changes = changes;
                  bytes = bytes;
                  sha256 = sha;
                  prev = prev;
                  chain = chain;
                  sealed_at = sealed;
                  uploaded_at = uploaded;
                  remote_key = key;
                  remote_etag = etag;
                }
                  ∷ [])
              bs k

read_segments-write :
    (segs got : List Segment) (rest : Bytes) (k : List Segment → Bytes → Option Manifest)
    → read_segments (length segs) got (write_segments segs rest) k ≡ k (got ++ segs) rest
unfolding read_segments write_segments
read_segments-write [] got rest k = rw append-nil refl
read_segments-write (s ∷ segs) got rest k =
    simp (read_field-field, read_number-number)
      (read_segments-write segs (got ++ s ∷ []) rest k
        ∙ ap (λ g. k g rest) (append_assoc got (s ∷ []) segs))

unfoldable pub write_manifest : Manifest → Bytes
write_manifest m = field m.archive (
    number m.format (
      field m.slot (
        field m.publication
          (field m.created_at (number (length m.segments) (write_segments m.segments brace))))))

unfoldable pub read_manifest : Bytes → Option Manifest
read_manifest bs = read_field bs λ archive bs. read_number bs λ format bs. read_field bs λ slot bs.
    read_field bs λ publication bs. read_field bs λ created bs. read_number bs λ n bs.
      read_segments n [] bs λ segs bs. some (record {
        archive = archive;
        format = format;
        slot = slot;
        publication = publication;
        created_at = created;
        segments = segs;
      })

append-number : (n : ℕ) (rest t : Bytes) → number n rest ++ t ≡ number n (rest ++ t)
unfolding number
append-number n rest t = refl

append-field : (f rest t : Bytes) → field f rest ++ t ≡ field f (rest ++ t)
unfolding field
append-field f rest t = ap (λ bs. (length f + 11) ∷ bs) (append_assoc (shift f) rest t)

append-segments :
    (segs : List Segment) (rest t : Bytes)
    → write_segments segs rest ++ t ≡ write_segments segs (rest ++ t)
unfolding write_segments
append-segments [] rest t = refl
append-segments (s ∷ segs) rest t = simp (append-field, append-number, append-segments segs rest t)

read-write : (m : Manifest) → read_manifest (write_manifest m ++ b'\n' ∷ []) ≡ some m
unfolding read_manifest write_manifest
read-write m = simp (
  append-field, append-number, append-segments, read_field-field, read_number-number,
  read_segments-write,
)

pub write_row : Assoc (Option Bytes) → Bytes
write_row [] = brace
write_row ((name, none) ∷ row) = field name (number 0 (write_row row))
write_row ((name, some v) ∷ row) = field name (number 1 (field v (write_row row)))

unfoldable pub only : Bytes → Option ℕ
only [] = none
only (l ∷ _) = some l

abbrev pub toy : Platform
toy = record {
  encode_change = encode;
  encode_row = write_row;
  decode_change = decode;
  encode_manifest = write_manifest;
  decode_manifest = read_manifest;
  sha256 = λ b. b;
  base64_decode = some;
  stamp = λ t. t ∷ [];
  stamp_micro = λ t. t ∷ [];
  lsn_text = λ l. l ∷ [];
  parse_lsn = only;
}

pub toy-IsFaithful : IsFaithful toy
unfolding only
toy-IsFaithful = record {
  decode-encode = decode-encode;
  encode-one_line = encode-plain;
  encode-last = encode-Ends;
  decode-encode_manifest = read-write;
  stamp-ne-empty = λ t. refl;
  parse-text = λ l. refl;
  text-ne-empty = λ l. refl;
}
