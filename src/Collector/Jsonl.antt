-- ===== src/Collector/Jsonl.antt =====
-- internal/collector/scan_jsonl.go: `scanJSONLIncremental`. The operating system and `bufio.Reader`
-- enter as a `File`: whether `Stat`, `Open` and `Seek` succeed, and what the calls of `ReadSlice`
-- return one after the other from a given offset on. `perLine` is recorded as the list of its calls.
pub mod Reader
pub mod Lines
pub mod Scan
pub mod Resume
use stint.Prelude.{
  ℕ, zero, suc, ◌+◌, ◌*◌, ◌≡◌, refl, Bool, true, false, not, ◌&&◌, Option, none, some, List, [],
  ◌∷◌, ◌++◌, arith, ltb, ◌==◌, if◌then◌else◌, length,
}
use stint.Prelude.Text.{Str}
use stint.Collector.Watermark.{State, byte_offset, commit_bytes}

abbrev pub max_jsonl_line_bytes : ℕ
max_jsonl_line_bytes = 4 * 1024 * 1024

abbrev pub newline : ℕ
newline = b'\n'

-- The error of a `ReadSlice`: none, `bufio.ErrBufferFull`, `io.EOF`, or another one.
pub data Status : Type 0 where
  ok buffer_full eof failed : Status

abbrev pub Read : Type 0
Read = Str × Status

-- A call of `perLine`: the line and its number.
abbrev pub Call : Type 0
Call = Str × ℕ

-- The variables of the loop; `errors` is `report.Errors`.
pub record Cursor : Type 0 where
  pub consumed : ℕ
  pub line_no : ℕ
  pub pending : ℕ
  pub too_long : Bool
  pub line : Str
  pub errors : ℕ
  pub calls : List Call

-- `if len(fragment) > 0 { … }`
unfoldable pub take_fragment : Cursor → Str → Cursor
take_fragment c [] = c
take_fragment c (b ∷ bs) =
    let fragment = b ∷ bs in
    let pending = c.pending + length fragment in
    let over = ltb max_jsonl_line_bytes pending in
    let too_long = (if over then true else c.too_long) in
    record c {
      pending = pending;
      errors = if over && not c.too_long then c.errors + 1 else c.errors;
      too_long = too_long;
      line = if too_long then c.line else c.line ++ fragment;
    }

-- `if len(fragment) > 0 && err == nil { … }`
unfoldable pub finish_line : Cursor → Str → Cursor
finish_line c [] = c
finish_line c (b ∷ bs) =
    let line_no = c.line_no + 1 in
    record c {
      consumed = c.consumed + c.pending;
      line_no = line_no;
      calls = if c.too_long then c.calls else c.calls ++ (c.line, line_no) ∷ [];
      pending = 0;
      too_long = false;
      line = [];
    }

-- The loop, over what the calls of `ReadSlice` return.
unfoldable pub read_loop : List Read → Cursor → Cursor
unfolding take_fragment finish_line
read_loop [] c = c
read_loop ((fragment, ok) ∷ rs) c = read_loop rs (finish_line (take_fragment c fragment) fragment)
read_loop ((fragment, buffer_full) ∷ rs) c = read_loop rs (take_fragment c fragment)
read_loop ((fragment, eof) ∷ rs) c = take_fragment c fragment
read_loop ((fragment, failed) ∷ rs) c = take_fragment c fragment

pub record File : Type 0 where
  pub stat_ok : Bool
  pub open_ok : Bool
  pub seek_ok : Bool
  pub size : ℕ
  pub mtime : ℕ
  pub reads : ℕ → List Read

abbrev pub start_at : ℕ × ℕ → ℕ → Cursor
start_at (offset, line_no) errors = record {
  consumed = offset;
  line_no = line_no;
  pending = 0;
  too_long = false;
  line = [];
  errors = errors;
  calls = [];
}

-- Where the reader starts: the recorded offset, or zero if the file cannot be positioned there.
unfoldable pub resume_point : File → ℕ × ℕ → ℕ × ℕ
resume_point f (offset, line_no) =
    if ltb 0 offset && not f.seek_ok then (0, 0) else (offset, line_no)

unfoldable pub read_from : File → ℕ × ℕ → ℕ → Cursor
unfolding read_loop
read_from f start errors = read_loop (f.reads start.0) (start_at start errors)

-- The state, `report.Errors` and the calls of `perLine` after a scan.
abbrev pub Scanned : Type 0
Scanned = State × ℕ × List Call

unfoldable pub scan_jsonl_incremental : Str → File → State → ℕ → Scanned
unfolding resume_point read_from
scan_jsonl_incremental path f s errors =
    if not f.stat_ok
    then (s, errors + 1, [])
    else if not f.open_ok
    then (s, errors + 1, [])
    else let c = read_from f (resume_point f (byte_offset s path f.size)) errors in
      (commit_bytes s path f.size f.mtime c.consumed c.line_no, c.errors, c.calls)
