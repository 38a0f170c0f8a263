-- ===== src/Collector/Watermark.antt =====
-- internal/collector/state.go: `FileState`, `State` and the typed accessors. The mutex makes each
-- operation atomic; sizes, times and counts are naturals, since the adapters commit file sizes, byte
-- counts and record counts.
pub mod Laws
use stint.Prelude.{
  ℕ, ◌≡◌, refl, Bool, true, false, ◌&&◌, Option, none, some, List, [], ◌∷◌, arith, ltb, ◌==◌,
  if◌then◌else◌, ◌||◌,
}
use stint.Prelude.Text.{Str}
use stint.Prelude.Dict.{Dict, text_eq, lookup, insert}

pub record FileState : Type 0 where
  pub size : ℕ
  pub mod_time_nano : ℕ
  pub offset : ℕ
  pub lines : ℕ

-- `State` without its mutex.
pub record State : Type 0 where
  pub files : Dict Str FileState
  pub path : Str

unfoldable pub new_state : State
new_state = record { files = []; path = [] }

unfoldable pub get : State → Str → Option FileState
get s path = lookup path s.files

unfoldable pub commit : State → Str → (size mtime offset lines : ℕ) → State
commit s path size mtime offset lines = record s {
  files =
      insert path (record { size = size; mod_time_nano = mtime; offset = offset; lines = lines })
        s.files;
}

-- Byte-offset adapters: the offset and the line count to resume from.
resume_bytes : ℕ → Option FileState → ℕ × ℕ
resume_bytes size none = (0, 0)
resume_bytes size (some fs) = if ltb size fs.offset then (0, 0) else (fs.offset, fs.lines)

unfoldable pub byte_offset : State → Str → ℕ → ℕ × ℕ
unfolding get resume_bytes
byte_offset s path size = resume_bytes size (get s path)

unfoldable pub commit_bytes : State → Str → (size mtime offset lines : ℕ) → State
unfolding commit
commit_bytes s path size mtime offset lines = commit s path size mtime offset lines

-- Max-rowid adapters.
offset_of : Option FileState → ℕ
offset_of none = 0
offset_of (some fs) = fs.offset

unfoldable pub rowid : State → Str → ℕ
unfolding get offset_of
rowid s path = offset_of (get s path)

unfoldable pub commit_rowid : State → Str → (size mtime max_row_id lines : ℕ) → State
unfolding commit
commit_rowid s path size mtime max_row_id lines = commit s path size mtime max_row_id lines

-- Watermark adapters.
watermark_of : ℕ → Option FileState → ℕ
watermark_of size none = 0
watermark_of size (some fs) = if ltb size fs.size then 0 else fs.lines

unfoldable pub max_unix_millis : State → Str → ℕ → ℕ
unfolding get watermark_of
max_unix_millis s path size = watermark_of size (get s path)

unfoldable pub commit_unix_millis : State → Str → (size mtime ms : ℕ) → State
unfolding commit
commit_unix_millis s path size mtime ms = commit s path size mtime 0 ms

unfoldable pub row_count : State → Str → ℕ → ℕ
unfolding get watermark_of
row_count s path size = watermark_of size (get s path)

unfoldable pub commit_row_count : State → Str → (size mtime rows : ℕ) → State
unfolding commit
commit_row_count s path size mtime rows = commit s path size mtime 0 rows

-- Whole-file adapters.
is_same : ℕ → ℕ → Option FileState → Bool
is_same size mtime none = false
is_same size mtime (some fs) = fs.size == size && fs.mod_time_nano == mtime

unfoldable pub file_unchanged : State → Str → (size mtime : ℕ) → Bool
unfolding get is_same
file_unchanged s path size mtime = is_same size mtime (get s path)

unfoldable pub commit_file : State → Str → (size mtime records : ℕ) → State
unfolding commit
commit_file s path size mtime records = commit s path size mtime size records
