-- ===== src/Examples/Collector.antt =====
-- Examples of internal/collector: a file that is read in slices, and a codec for small states.
use stint.Prelude.{
  ◌+◌, ◌≡◌, ◌≢◌, refl, Bool, true, ◌&&◌, ltb, zero, suc, none, some, List, [], ◌∷◌, ◌++◌, ◌==◌,
  arith, if◌then◌else◌, All-append, append_assoc, append-nil, Bool-cases, inl, inr, length, drop,
  sum_by,
}
use mathlib.Core.Path.{subst}
use stint.Prelude.Text.{Str, codes, str_eq}
use stint.Prelude.Dict.{Dict, text_eq, lookup}
use stint.Prelude.Unique.{IsMap}
use stint.Collector.Watermark.{FileState, State, get, byte_offset, commit_bytes}
use stint.Collector.Persist.{
  Codec, IsJson, Survives, missing, Outcomes, save, load_state, read_file, save_atomic,
  load_state-save, temp_of,
}
use stint.Collector.Jsonl.{newline, ok, eof, Read, File, scan_jsonl_incremental}
use stint.Collector.Jsonl.Reader.{Lacks, Reads, terminated, ended}
use stint.Collector.Jsonl.Lines.{lines_after, tail_after, deliver, over_count, total_bytes}
use stint.Collector.Jsonl.Resume.{IsReadable, scan_jsonl_incremental_lem, scan_resumes}

abbrev log_path : Str
log_path = codes "a.jsonl"

abbrev fresh : State
fresh = record { files = []; path = codes "state" }

-- What a reader returns for a text, if no line fills its buffer.
slices : Str → Str → List Read
slices before [] = (before, eof) ∷ []
slices before (c ∷ s) =
    let line = (before ++ c ∷ [], ok) ∷ slices [] s in
    let more = slices (before ++ c ∷ []) s in if c == newline then line else more

slices-Reads : (before s : Str) → Lacks before → Reads (before ++ s) (slices before s)
unfolding slices
slices-Reads before [] h = rw (append-nil before) (ended before h)
slices-Reads before (c ∷ s) h = elim (Bool-cases (c == newline)) [
  | inl e ↦
      let same : c ≡ newline = ground arith in
      rw (e, same) (terminated before h refl (slices-Reads [] s tt))
  | inr e ↦
      let other : c ≢ newline = ground arith in
      rw e (
        subst (λ z. Reads z (slices (before ++ c ∷ []) s)) (append_assoc before (c ∷ []) s)
          (slices-Reads (before ++ c ∷ []) s
            (All-append (λ d. d ≢ newline) before (c ∷ []) h (other, tt))))
]

-- A file that holds `content`.
abbrev file_of : Str → File
file_of content = record {
  stat_ok = true;
  open_ok = true;
  seek_ok = true;
  size = length content;
  mtime = 5;
  reads = λ offset. slices [] (drop offset content);
}

file_of-IsReadable : (content : Str) → IsReadable content (file_of content)
file_of-IsReadable content = record {
  stat_lem = refl;
  open_lem = refl;
  seek_lem = refl;
  size_lem = refl;
  reads_lem = λ offset. slices-Reads [] (drop offset content) tt;
}

-- A line, and the first half of another.
abbrev begun : Str
begun = codes "one" ++ newline ∷ codes "t"

abbrev grown : Str
grown = codes "wo" ++ newline ∷ []

abbrev behind : Str
behind = drop (byte_offset fresh log_path 5).0 begun

scan_jsonl_incremental_lem_example : scan_jsonl_incremental log_path (file_of begun) fresh 0 ≡ (
  commit_bytes fresh log_path 5 5
      ((byte_offset fresh log_path 5).0 + total_bytes (lines_after [] behind))
      ((byte_offset fresh log_path 5).1 + length (lines_after [] behind)),
  0 + sum_by over_count (lines_after [] behind) + over_count (tail_after [] behind),
  deliver (byte_offset fresh log_path 5).1 (lines_after [] behind),
)
scan_jsonl_incremental_lem_example =
    scan_jsonl_incremental_lem log_path (file_of begun) begun fresh 0 (file_of-IsReadable begun)

fresh-get : get fresh log_path ≡ none
unfolding get lookup
fresh-get = refl

scan_resumes_example :
    let first = scan_jsonl_incremental log_path (file_of begun) fresh 0 in
    let second = scan_jsonl_incremental log_path (file_of (begun ++ grown)) first.0 1 in
    let whole = scan_jsonl_incremental log_path (file_of (begun ++ grown)) fresh 0 in
    (first.2 ++ second.2 ≡ whole.2) × (second.0 ≡ whole.0)
scan_resumes_example =
    scan_resumes log_path (file_of begun) (file_of (begun ++ grown)) begun grown fresh 0 1 fresh-get
      (file_of-IsReadable begun) (file_of-IsReadable (begun ++ grown))

-- A codec: every entry behind a zero, as its four numbers and the bytes of its path, each one higher.
abbrev raised : Str → Str → Str
raised [] rest = rest
raised (c ∷ p) rest = suc c ∷ raised p rest

encode : Dict Str FileState → Str
encode [] = 0 ∷ []
encode ((p, f) ∷ m) = 0 ∷ f.size ∷ f.mod_time_nano ∷ f.offset ∷ f.lines ∷ raised p (encode m)

-- The rest of a path, and the entries behind it.
decode : Str → Str × Dict Str FileState
decode (suc c ∷ s) = let (p, m) = decode s in (c ∷ p, m)
decode (zero ∷ size ∷ mtime ∷ offset ∷ lines ∷ s) =
    let (p, m) = decode s in
    ([], (p, record { size = size; mod_time_nano = mtime; offset = offset; lines = lines }) ∷ m)
decode s = ([], [])

abbrev small : Codec
small = record { marshal = λ m. some (encode m); unmarshal = λ b. some (some (decode b).1) }

decode-raised :
    (p : Str) (m : Dict Str FileState)
    → decode (encode m) ≡ ([], m)
    → decode (raised p (encode m)) ≡ (p, m)
unfolding decode
decode-raised [] m e = e
decode-raised (c ∷ p) m e = rw (decode-raised p m e) refl

decode-encode : (m : Dict Str FileState) → decode (encode m) ≡ ([], m)
unfolding decode encode
decode-encode [] = refl
decode-encode ((p, f) ∷ m) = rw (decode-raised p m (decode-encode m)) refl

encode-ne-nil : (m : Dict Str FileState) → some (encode m) ≢ some []
unfolding encode
encode-ne-nil [] e = cc
encode-ne-nil ((p, f) ∷ m) e = cc

some_eq : (a b : Str) → some a ≡ some b → b ≡ a
some_eq a b e = cc

abbrev is_ascii : Str → Bool
is_ascii [] = true
is_ascii (c ∷ s) = ltb c 128 && is_ascii s

small-IsJson : IsJson small is_ascii
small-IsJson = record {
  unmarshal-marshal =
      λ m b is_map keys e. (m, rw (some_eq (encode m) b e, decode-encode m) refl, λ k. refl);
  marshal-ne-nil = encode-ne-nil;
}

abbrev tracked : FileState
tracked = record { size = 10; mod_time_nano = 5; offset = 8; lines = 2 }

abbrev known : State
known = record { files = (log_path, tracked) ∷ (codes "b", tracked) ∷ []; path = codes "state" }

abbrev failing : Outcomes
failing = record { mkdir_ok = true; torn_write = some (codes "{"); rename_ok = true }

abbrev working : Outcomes
working = record { mkdir_ok = true; torn_write = none; rename_ok = true }

known-path : known.path ≢ []
known-path e = cc

abbrev known_bytes : Str
known_bytes = encode known.files

save_atomic_example :
    let (fs, err) = save small failing known ((codes "state", 0 ∷ []) ∷ []) in
    (lookup (codes "state") fs ≡ (elim err [
      | none ↦ some known_bytes
      | some _ ↦ lookup (codes "state") ((codes "state", 0 ∷ []) ∷ [])
    ]))
    × ((q : Str)
        → q ≢ codes "state"
        → q ≢ temp_of (codes "state")
        → lookup q fs ≡ lookup q ((codes "state", 0 ∷ []) ∷ []))
save_atomic_example =
    save_atomic small failing known ((codes "state", 0 ∷ []) ∷ []) known_bytes known-path refl

known-IsMap : IsMap known.files
known-IsMap = unfold lookup str_eq in (refl, (refl, tt))

load_state-save_example :
    Survives small working known [] none
      (load_state small (codes "state") missing)
      (load_state small (codes "state") (read_file (codes "state") (save small working known []).0))
unfolding save str_eq
load_state-save_example =
    load_state-save small working known [] is_ascii small-IsJson known-path known-IsMap
      (refl, (refl, tt))
