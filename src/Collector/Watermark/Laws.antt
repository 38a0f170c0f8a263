-- ===== src/Collector/Watermark/Laws.antt =====
-- What a commit makes the accessors answer.
use stint.Prelude.{ℕ, ◌≡◌, ap, ◌&&◌, some, ltb, ◌==◌, if◌then◌else◌}
use stint.Prelude.Text.{Str, str_eq}
use stint.Prelude.Dict.{text_eq, lookup-insert, lookup-insert_self}
use stint.Collector.Watermark.{
  State, get, commit, byte_offset, commit_bytes, rowid, commit_rowid, max_unix_millis,
  commit_unix_millis, row_count, commit_row_count, file_unchanged, commit_file, resume_bytes,
  offset_of, watermark_of, is_same,
}

-- A commit sets the entry of its own path and leaves the entry of every other path alone.
pub get-commit :
    (s : State) (p q : Str) (size mtime offset lines : ℕ)
    → get (commit s p size mtime offset lines) q ≡ (
        if str_eq p q
        then some (record { size = size; mod_time_nano = mtime; offset = offset; lines = lines })
        else get s q)
unfolding get commit
get-commit s p q size mtime offset lines = lookup-insert p q _ s.files

module _ (s : State) (p : Str) where
  get-commit_self :
      (size mtime offset lines : ℕ)
      → get (commit s p size mtime offset lines) p
        ≡ some (record { size = size; mod_time_nano = mtime; offset = offset; lines = lines })
  unfolding get commit
  get-commit_self size mtime offset lines = lookup-insert_self p _ s.files

  -- After `CommitBytes` a scan of a file of any later size resumes exactly at the committed offset
  -- and line, unless the file is now shorter than the offset: then it starts from zero.
  pub byte_offset-commit_bytes :
      (size mtime offset lines size' : ℕ)
      → byte_offset (commit_bytes s p size mtime offset lines) p size'
        ≡ (if ltb size' offset then (0, 0) else (offset, lines))
  unfolding byte_offset commit_bytes
  byte_offset-commit_bytes size mtime offset lines size' =
      rw (get-commit_self size mtime offset lines)

  -- The row id that `CommitRowid` records is the one read back, and so are both kinds of
  -- watermark as long as the file has not shrunk below its recorded size; a shrunken file reads 0.
  pub watermark-commit :
      (size mtime mark lines size' : ℕ)
      → (rowid (commit_rowid s p size mtime mark lines) p ≡ mark)
        × (max_unix_millis (commit_unix_millis s p size mtime mark) p size'
            ≡ (if ltb size' size then 0 else mark))
        × (row_count (commit_row_count s p size mtime mark) p size'
            ≡ (if ltb size' size then 0 else mark))
  unfolding rowid commit_rowid max_unix_millis commit_unix_millis row_count commit_row_count
  watermark-commit size mtime mark lines size' = (
    rw (get-commit_self size mtime mark lines),
    rw (get-commit_self size mtime 0 mark),
    rw (get-commit_self size mtime 0 mark),
  )

  -- After `CommitFile` the file counts as unchanged exactly when its size and its modification time
  -- are the committed ones.
  pub file_unchanged-commit_file :
      (size mtime records size' mtime' : ℕ)
      → file_unchanged (commit_file s p size mtime records) p size' mtime'
        ≡ (size == size' && mtime == mtime')
  unfolding file_unchanged commit_file
  file_unchanged-commit_file size mtime records size' mtime' =
      rw (get-commit_self size mtime size records)

-- Two states of which every accessor gives the same answers.
pub record Answers (s t : State) : Type 0 where
  pub get_lem : (k : Str) → get t k ≡ get s k
  pub byte_offset_lem : (k : Str) (size : ℕ) → byte_offset t k size ≡ byte_offset s k size
  pub rowid_lem : (k : Str) → rowid t k ≡ rowid s k
  pub max_unix_millis_lem :
      (k : Str) (size : ℕ) → max_unix_millis t k size ≡ max_unix_millis s k size
  pub row_count_lem : (k : Str) (size : ℕ) → row_count t k size ≡ row_count s k size
  pub file_unchanged_lem :
      (k : Str) (size mtime : ℕ) → file_unchanged t k size mtime ≡ file_unchanged s k size mtime

-- The accessors look at nothing but the entry of their file.
pub Answers-get : (s t : State) → ((k : Str) → get t k ≡ get s k) → Answers s t
unfolding byte_offset rowid max_unix_millis row_count file_unchanged
Answers-get s t same = record {
  get_lem = same;
  byte_offset_lem = λ k size. ap (resume_bytes size) (same k);
  rowid_lem = λ k. ap offset_of (same k);
  max_unix_millis_lem = λ k size. ap (watermark_of size) (same k);
  row_count_lem = λ k size. ap (watermark_of size) (same k);
  file_unchanged_lem = λ k size mtime. ap (is_same size mtime) (same k);
}
