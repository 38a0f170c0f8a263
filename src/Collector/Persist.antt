-- ===== src/Collector/Persist.antt =====
-- internal/collector/state.go: `LoadState` and `Save`, over a file system with one file per path.
-- `encoding/json` is a parameter. `ExpandHome` has been applied to the path that is loaded.
use stint.Prelude.{
  ◌≡◌, ◌≢◌, refl, Bool, true, false, not, Option, none, some, [], ◌∷◌, ◌++◌, if◌then◌else◌, ap,
  Bool-cases, Option-cases, inl, inr, sym, ◌∙◌, All,
}
use stint.Prelude.Text.{str_eq_ne, Str, codes, str_eq, str_eq→eq}
use stint.Prelude.Dict.{
  Dict, text_eq, lookup, insert, delete, lookup-insert, lookup-delete, lookup-insert_self,
}
use stint.Prelude.Unique.{IsMap}
use stint.Collector.Watermark.{FileState, State, get}
use stint.Collector.Watermark.Laws.{Answers, Answers-get}

-- What `os.ReadFile` reports.
pub data ReadResult : Type 0 where
  missing : ReadResult
  unreadable : ReadResult
  contents : Str → ReadResult

-- `none` is the nil map that `"files": null` or a missing key leaves.
pub record Codec : Type 0 where
  pub marshal : Dict Str FileState → Option Str
  pub unmarshal : Str → Option (Option (Dict Str FileState))

-- What `encoding/json` promises. The keys of a map are written in their sorted order, so that the map
-- comes back with the same entries and not with the same order; and bytes that are no UTF-8 are replaced,
-- so that this is said of valid keys alone.
pub record IsJson (c : Codec) (valid : Str → Bool) : Type 0 where
  pub unmarshal-marshal :
      (m : Dict Str FileState) (b : Str)
      → IsMap m
      → All (λ (k, f). valid k ≡ true) m
      → c.marshal m ≡ some b
      → (m' : Dict Str FileState) × (c.unmarshal b ≡ some (some m'))
        × ((k : Str) → lookup k m' ≡ lookup k m)
  pub marshal-ne-nil : (m : Dict Str FileState) → c.marshal m ≢ some []

-- What happens to the calls of `Save`: whether `MkdirAll` and `Rename` succeed, and how much of the
-- temporary file a failing `WriteFile` leaves (`none` if it writes everything).
pub record Outcomes : Type 0 where
  pub mkdir_ok : Bool
  pub torn_write : Option Str
  pub rename_ok : Bool

abbrev pub Files : Type 0
Files = Dict Str Str

pub data SaveError : Type 0 where
  marshal_failed mkdir_failed write_failed rename_failed : SaveError

abbrev pub temp_of : Str → Str
temp_of path = path ++ codes ".tmp"

-- The files after `os.Rename(tmp, path)`, where `b` is what `tmp` holds.
renamed : Str → Str → Files → Files
renamed path b fs = insert path b (delete (temp_of path) fs)

-- `os.WriteFile(tmp, b)` and `os.Rename(tmp, path)`.
replace_file : Option Str → Bool → Str → Str → Files → Files × Option SaveError
unfolding renamed
replace_file (some part) rename_ok path b fs = (insert (temp_of path) part fs, some write_failed)
replace_file none false path b fs = (insert (temp_of path) b fs, some rename_failed)
replace_file none true path b fs = (renamed path b (insert (temp_of path) b fs), none)

-- `Save` behind its test for a bound path and a successful `MarshalIndent`.
unfoldable pub write_out : Outcomes → Str → Str → Files → Files × Option SaveError
unfolding replace_file
write_out o path b fs =
    if not o.mkdir_ok
    then (fs, some mkdir_failed)
    else replace_file o.torn_write o.rename_ok path b fs

-- `json.MarshalIndent` and what follows.
save_marshalled : Outcomes → Str → Option Str → Files → Files × Option SaveError
unfolding write_out
save_marshalled o path none fs = (fs, some marshal_failed)
save_marshalled o path (some b) fs = write_out o path b fs

-- What `LoadState` makes of what `json.Unmarshal` returns.
loaded : Str → Option (Option (Dict Str FileState)) → Option State
loaded path none = none
loaded path (some none) = some (record { files = []; path = path })
loaded path (some (some m)) = some (record { files = m; path = path })

-- `os.ReadFile` on the files; a path that is there can be read.
pub read_result : Option Str → ReadResult
read_result none = missing
read_result (some b) = contents b

abbrev pub read_file : Str → Files → ReadResult
read_file path fs = read_result (lookup path fs)

module _ (c : Codec) where
  open c use {marshal, unmarshal}

  unfoldable pub save : Outcomes → State → Files → Files × Option SaveError
  unfolding save_marshalled
  save o s fs =
      if str_eq s.path [] then (fs, none) else save_marshalled o s.path (marshal s.files) fs

  -- `none` is an error.
  unfoldable pub load_state : Str → ReadResult → Option State
  unfolding loaded
  load_state path missing = some (record { files = []; path = path })
  load_state path unreadable = none
  load_state path (contents []) = some (record { files = []; path = path })
  load_state path (contents (b ∷ bs)) = loaded path (unmarshal (b ∷ bs))

append_ne : (xs ys : Str) → ys ≢ [] → xs ++ ys ≢ xs
append_ne [] ys h e = h e
append_ne (x ∷ xs) ys h e = append_ne xs ys h (cc)

temp_of-ne : (path : Str) → str_eq (temp_of path) path ≡ false
temp_of-ne path = elim (Bool-cases (str_eq (temp_of path) path)) [
  | inl e ↦ absurd (append_ne path (codes ".tmp") (cc) (str_eq→eq (temp_of path) path e))
  | inr e ↦ e
]

lookup-temp :
    (path v : Str) (fs : Files) → lookup path (insert (temp_of path) v fs) ≡ lookup path fs
lookup-temp path v fs = rw (lookup-insert (temp_of path) path v fs, temp_of-ne path)

lookup-temp_other :
    (path q v : Str) (fs : Files)
    → q ≢ temp_of path
    → lookup q (insert (temp_of path) v fs) ≡ lookup q fs
lookup-temp_other path q v fs h =
    rw (lookup-insert (temp_of path) q v fs, str_eq_ne (temp_of path) q (λ e. h (sym e)))

-- The bound file holds the new bytes if all went well, and its old contents otherwise.
abbrev Replaced : Str → Str → Files → Files × Option SaveError → Type 0
Replaced path b fs (fs', err) =
    (lookup path fs' ≡ (elim err [ none ↦ some b | some _ ↦ lookup path fs ]))
    × ((q : Str) → q ≢ path → q ≢ temp_of path → lookup q fs' ≡ lookup q fs)

replace_file-Replaced :
    (torn : Option Str) (rename_ok : Bool) (path b : Str) (fs : Files)
    → Replaced path b fs (replace_file torn rename_ok path b fs)
unfolding replace_file
replace_file-Replaced (some part) rename_ok path b fs =
    (lookup-temp path part fs, λ q h k. lookup-temp_other path q part fs k)
replace_file-Replaced none false path b fs =
    (lookup-temp path b fs, λ q h k. lookup-temp_other path q b fs k)
replace_file-Replaced none true path b fs = (
  lookup-insert_self path b _,
  λ q h k. rw (
    lookup-insert path q b _,
    str_eq_ne path q (λ e. h (sym e)),
    lookup-delete (temp_of path) q _,
    str_eq_ne (temp_of path) q (λ e. k (sym e)),
    lookup-temp_other path q b fs k,
  ),
)

write_out-Replaced :
    (o : Outcomes) (path b : Str) (fs : Files) → Replaced path b fs (write_out o path b fs)
unfolding write_out
write_out-Replaced o path b fs = elim (Bool-cases o.mkdir_ok) [
  | inl e ↦ rw e (replace_file-Replaced o.torn_write o.rename_ok path b fs)
  | inr e ↦ rw e (refl, λ q h k. refl)
]

module _ (c : Codec) (o : Outcomes) (s : State) (fs : Files) where
  -- Let the state have a path and an encoding. Whatever fails, the file at the path is replaced
  -- whole by the encoding of the present state if `Save` reports no error, and is left as it was
  -- if it reports one. No other file is touched but the temporary one.
  pub save_atomic :
      (b : Str)
      → s.path ≢ []
      → c.marshal s.files ≡ some b
      → let (fs', err) = save c o s fs in
        (lookup s.path fs' ≡ (elim err [ none ↦ some b | some _ ↦ lookup s.path fs ]))
        × ((q : Str) → q ≢ s.path → q ≢ temp_of s.path → lookup q fs' ≡ lookup q fs)
  unfolding save
  save_atomic b bound h = rw (str_eq_ne s.path [] bound, h) (write_out-Replaced o s.path b fs)

  load_bytes :
      (b : Str) (m : Dict Str FileState)
      → b ≢ []
      → c.unmarshal b ≡ some (some m)
      → load_state c s.path (contents b) ≡ some (record { files = m; path = s.path })
  unfolding load_state
  load_bytes [] m ne u = absurd (ne refl)
  load_bytes (x ∷ xs) m ne u = rw u

  -- A state that is bound to the path, and answers for every file as the saved one.
  abbrev Restores : Option State → Type 0
  Restores after = (t : State) × (after ≡ some t) × (t.path ≡ s.path) × Answers s t

  -- What was loaded from the path before a `Save` and after it, by its error.
  abbrev pub Survives : Option SaveError → (before after : Option State) → Type 0
  Survives none before after = Restores after
  Survives (some failure) before after = after ≡ before

  restored :
      (m : Dict Str FileState)
      → ((k : Str) → lookup k m ≡ lookup k s.files)
      → Answers s (record { files = m; path = s.path })
  restored m same = Answers-get s (record { files = m; path = s.path }) (λ k. unfold get in same k)

  Survives-Replaced :
      (valid : Str → Bool) (b : Str) (fs' : Files) (err : Option SaveError)
      → IsJson c valid
      → IsMap s.files
      → All (λ (k, f). valid k ≡ true) s.files
      → c.marshal s.files ≡ some b
      → lookup s.path fs' ≡ (elim err [ none ↦ some b | some _ ↦ lookup s.path fs ])
      → Survives err
          (load_state c s.path (read_file s.path fs))
          (load_state c s.path (read_file s.path fs'))
  unfolding read_result
  Survives-Replaced valid b fs' none json is_map keys e h =
      let (m, read, same) = json.unmarshal-marshal s.files b is_map keys e in
      (
        record { files = m; path = s.path },
        rw h (load_bytes b m (λ z. json.marshal-ne-nil s.files (e ∙ ap some z)) read),
        refl,
        restored m same,
      )
  Survives-Replaced valid b fs' (some failure) json is_map keys e h = rw h refl

  -- Let the state have a path, let its files be a map with keys that JSON can carry, and let the codec be
  -- that of `encoding/json`: entries come back, though in another order. If `Save` reports no error, then
  -- the state that is loaded from the path is bound to it, answers for every file as the saved state, and
  -- so has the same offsets to resume from. If `Save` reports an error, whichever of its calls has
  -- failed, what is loaded is what would have been loaded before.
  pub load_state-save :
      (valid : Str → Bool)
      → IsJson c valid
      → s.path ≢ []
      → IsMap s.files
      → All (λ (k, f). valid k ≡ true) s.files
      → let (fs', err) = save c o s fs in
        Survives err
          (load_state c s.path (read_file s.path fs))
          (load_state c s.path (read_file s.path fs'))
  unfolding save save_marshalled
  load_state-save valid json bound is_map keys = elim (Option-cases (c.marshal s.files)) [
    | inl e ↦ rw (str_eq_ne s.path [] bound, e) refl
    | inr (b, e) ↦
        Survives-Replaced valid b (save c o s fs).0 (save c o s fs).1 json is_map keys e
          (save_atomic b bound e).0
  ]
