-- ===== src/Collector/Jsonl/Resume.antt =====
-- Incremental scans of a file that grows.
use stint.Prelude.{
  ℕ, ◌+◌, ◌≤◌, ◌≡◌, ◌∙◌, true, none, [], ◌++◌, arith, length, drop, drop-append_le, length-append,
  sum_by, sum_by-append, ap,
}
use mathlib.Core.Path.{ap₂}
use native.Mathlib.Nat.{zero-add}
use stint.Prelude.Text.{Str}
use stint.Prelude.Dict.{text_eq, insert-insert}
use stint.Collector.Watermark.{State, get, byte_offset, commit_bytes}
use stint.Collector.Watermark.Laws.{byte_offset-commit_bytes}
use stint.Collector.Jsonl.{File, start_at, resume_point, read_from, scan_jsonl_incremental}
use stint.Collector.Jsonl.Reader.{Reads}
use stint.Collector.Jsonl.Lines.{
  lines_after, tail_after, deliver, over_count, total_bytes, lines_after-Lacks, lines_after-append,
  deliver-append, drop-total_bytes, total_bytes-lines_after, tail_after-Lacks_self,
}
use stint.Collector.Jsonl.Scan.{Outcome, read_loop-Outcome}

-- A file that can be opened and positioned, and that holds `content`.
pub record IsReadable (content : Str) (f : File) : Type 0 where
  pub stat_lem : f.stat_ok ≡ true
  pub open_lem : f.open_ok ≡ true
  pub seek_lem : f.seek_ok ≡ true
  pub size_lem : f.size ≡ length content
  pub reads_lem : (offset : ℕ) → Reads (drop offset content) (f.reads offset)

read_from-Outcome :
    (f : File) (content : Str) (start : ℕ × ℕ) (errors : ℕ)
    → IsReadable content f
    → let rest = drop start.0 content in
      Outcome []
        (lines_after [] rest)
        (tail_after [] rest)
        (start_at start errors)
        (read_from f start errors)
unfolding read_from
read_from-Outcome f content start errors r =
    read_loop-Outcome [] (start_at start errors) (r.reads_lem start.0) (ground arith)

resume_point-seek : (f : File) (start : ℕ × ℕ) → f.seek_ok ≡ true → resume_point f start ≡ start
unfolding resume_point
resume_point-seek f (o, n) h = ground arith

-- A scan of a readable file delivers the lines behind the recorded offset, numbered from the
-- recorded line count on, and moves the offset and the count past just these lines. Its errors are
-- the overlong ones among them, and an overlong tail.
pub scan_jsonl_incremental_lem :
    (path : Str) (f : File) (content : Str) (s : State) (errors : ℕ)
    → IsReadable content f
    → let (offset, line_no) = byte_offset s path f.size in
      let rest = drop offset content in
      let ls = lines_after [] rest in
      scan_jsonl_incremental path f s errors ≡ (
        commit_bytes s path f.size f.mtime (offset + total_bytes ls) (line_no + length ls),
        errors + sum_by over_count ls + over_count (tail_after [] rest),
        deliver line_no ls,
      )
unfolding scan_jsonl_incremental
scan_jsonl_incremental_lem path f content s errors r =
    let start = byte_offset s path f.size in
    let o = read_from-Outcome f content start errors r in
    rw (r.stat_lem, r.open_lem, resume_point-seek f start r.seek_lem)
      (cc (o.consumed_lem, o.line_no_lem, o.calls_lem, e o))
  where
    e :
        (let start = byte_offset s path f.size in
          let rest = drop start.0 content in
          Outcome []
            (lines_after [] rest)
            (tail_after [] rest)
            (start_at start errors)
            (read_from f start errors))
        → (read_from f (byte_offset s path f.size) errors).errors
          ≡ errors
            + sum_by over_count (lines_after [] (drop (byte_offset s path f.size).0 content))
            + over_count (tail_after [] (drop (byte_offset s path f.size).0 content))
    e o = omega (arith, o.errors_lem)

-- The lines behind the consumed ones of a text that has grown.
lines_after-grown :
    (content more : Str)
    → let first = lines_after [] content in
      let rest = drop (total_bytes first) (content ++ more) in
      lines_after [] (content ++ more) ≡ first ++ lines_after [] rest
lines_after-grown content more =
    let first = lines_after [] content in
    let tail = tail_after [] content in
    let fits : total_bytes first ≤ length content =
      omega (arith, total_bytes-lines_after [] content) in
    rw (
      drop-append_le content more (total_bytes first) fits,
      drop-total_bytes [] content,
      lines_after-append [] content more,
      lines_after-Lacks [] tail more (tail_after-Lacks_self [] content tt),
    )

byte_offset-fresh :
    (s : State) (path : Str) (size : ℕ) → get s path ≡ none → byte_offset s path size ≡ (0, 0)
unfolding byte_offset
byte_offset-fresh s path size h = rw h

commit_bytes-commit_bytes :
    (s : State) (path : Str) (a b c d size mtime offset line_no : ℕ)
    → commit_bytes (commit_bytes s path a b c d) path size mtime offset line_no
      ≡ commit_bytes s path size mtime offset line_no
unfolding commit_bytes
commit_bytes-commit_bytes s path a b c d size mtime offset line_no =
    ap (λ m. record s { files = m }) (insert-insert path _ _ s.files)

-- The state and the calls of a scan that starts at a known place.
scan_from :
    (path : Str) (f : File) (content : Str) (s : State) (errors o n : ℕ)
    → IsReadable content f
    → byte_offset s path f.size ≡ (o, n)
    → let ls = lines_after [] (drop o content) in
      let scanned = scan_jsonl_incremental path f s errors in
      (scanned.0 ≡ commit_bytes s path f.size f.mtime (o + total_bytes ls) (n + length ls))
      × (scanned.2 ≡ deliver n ls)
scan_from path f content s errors o n r h =
    let e = scan_jsonl_incremental_lem path f content s errors r in (rw (e, h), rw (e, h))

-- Let a file be readable. If it is scanned for the first time, grows at its end and is scanned again,
-- the two scans together make the very calls, with the very line numbers, and leave the very state of
-- one scan of the grown file.
pub scan_resumes :
    (path : Str) (f f' : File) (content more : Str) (s : State) (errors errors' : ℕ)
    → get s path ≡ none
    → IsReadable content f
    → IsReadable (content ++ more) f'
    → let (s₁, e₁, calls₁) = scan_jsonl_incremental path f s errors in
      let (s₂, e₂, calls₂) = scan_jsonl_incremental path f' s₁ errors' in
      let (s₃, e₃, calls₃) = scan_jsonl_incremental path f' s errors in
      (calls₁ ++ calls₂ ≡ calls₃) × (s₂ ≡ s₃)
scan_resumes path f f' content more s errors errors' h r r' =
    let first = lines_after [] content in
    let o = total_bytes first in
    let n = length first in
    let s₁ = commit_bytes s path f.size f.mtime o n in
    let later = lines_after [] (drop o (content ++ more)) in
    let whole : lines_after [] (content ++ more) ≡ first ++ later =
      lines_after-grown content more in
    let fits : o ≤ f'.size =
      omega (arith, total_bytes-lines_after [] content, length-append content more, r'.size_lem) in
    let here : byte_offset s₁ path f'.size ≡ (o, n) =
      byte_offset-commit_bytes s path f.size f.mtime o n f'.size ∙ ground arith in
    let (state₁, calls₁) =
      scan_from path f content s errors 0 0 r (byte_offset-fresh s path f.size h) in
    let (state₂, calls₂) = scan_from path f' (content ++ more) s₁ errors' o n r' here in
    let (state₃, calls₃) =
      scan_from path f' (content ++ more) s errors 0 0 r' (byte_offset-fresh s path f'.size h) in
    let known : (scan_jsonl_incremental path f s errors).0 ≡ s₁ =
      state₁ ∙ ap₂ (commit_bytes s path f.size f.mtime) (zero-add o) (zero-add n) in
    (
      rw (known, calls₁, calls₂, calls₃, whole, deliver-append 0 first later, zero-add n),
      rw (
        known,
        state₂,
        state₃,
        whole,
        commit_bytes-commit_bytes s path f.size f.mtime o n,
        sum_by-append length first later,
        length-append first later,
        zero-add,
        zero-add,
      ),
    )
