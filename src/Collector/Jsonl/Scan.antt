-- ===== src/Collector/Jsonl/Scan.antt =====
-- The scanning loop against the reference, for every size of the reader's buffer.
use stint.Prelude.{
  ◌+◌, ◌≡◌, false, List, [], ◌∷◌, ◌++◌, arith, if◌then◌else◌, length, length-append, append_assoc,
  append-nil, sum_by, Bool-cases, inl, inr, ◌∙◌,
}
use stint.Prelude.Text.{Str}
use stint.Collector.Jsonl.{newline, Read, Cursor, take_fragment, finish_line, read_loop}
use stint.Collector.Jsonl.Reader.{Lacks, Reads, terminated, full, ended}
use stint.Collector.Jsonl.Lines.{
  lines_after, tail_after, is_over, deliver, over_count, total_bytes, lines_after-Lacks,
  tail_after-Lacks,
}

-- The cursor stands in the middle of a line of which `part` has been read.
pub record Tracks (part : Str) (c : Cursor) : Type 0 where
  pub pending_lem : c.pending ≡ length part
  pub too_long_lem : c.too_long ≡ is_over part
  pub line_lem : c.too_long ≡ false → c.line ≡ part

-- What a piece of the input changes besides the current line.
record Keeps (c d : Cursor) : Type 0 where
  consumed_eq : d.consumed ≡ c.consumed
  line_no_eq : d.line_no ≡ c.line_no
  calls_eq : d.calls ≡ c.calls

take_fragment-Tracks :
    (part f : Str) (c : Cursor) → Tracks part c → Tracks (part ++ f) (take_fragment c f)
unfolding take_fragment
take_fragment-Tracks part [] c t = rw append-nil t
take_fragment-Tracks part (b ∷ bs) c t = ground (arith, length-append part (b ∷ bs))

take_fragment-Keeps : (f : Str) (c : Cursor) → Keeps c (take_fragment c f)
unfolding take_fragment
take_fragment-Keeps [] c = ground arith
take_fragment-Keeps (b ∷ bs) c = ground arith

take_fragment-errors :
    (part f : Str) (c : Cursor)
    → Tracks part c
    → (take_fragment c f).errors + over_count part ≡ c.errors + over_count (part ++ f)
unfolding take_fragment
take_fragment-errors part [] c t = rw append-nil
take_fragment-errors part (b ∷ bs) c t = ground (arith, length-append part (b ∷ bs))

-- What the end of the line `l` does to the cursor that has read it.
record Finishes (l : Str) (c d : Cursor) : Type 0 where
  consumed_eq : d.consumed ≡ c.consumed + length l
  line_no_eq : d.line_no ≡ c.line_no + 1
  calls_eq : d.calls ≡ (if is_over l then c.calls else c.calls ++ (l, c.line_no + 1) ∷ [])
  errors_eq : d.errors ≡ c.errors
  tracks : Tracks [] d

finish_line-Finishes :
    (l before : Str) (c : Cursor)
    → Tracks l c
    → Finishes l c (finish_line c (before ++ newline ∷ []))
unfolding finish_line
finish_line-Finishes l [] c t = ground arith
finish_line-Finishes l (b ∷ bs) c t = ground arith

lines_after-line :
    (part before rest : Str)
    → Lacks before
    → lines_after part (before ++ newline ∷ rest)
      ≡ (part ++ (before ++ newline ∷ [])) ∷ lines_after [] rest
unfolding lines_after
lines_after-line part before rest h =
    rw (lines_after-Lacks part before (newline ∷ rest) h, append_assoc part before (newline ∷ []))

tail_after-line :
    (part before rest : Str)
    → Lacks before
    → tail_after part (before ++ newline ∷ rest) ≡ tail_after [] rest
unfolding tail_after
tail_after-line part before rest h = rw (tail_after-Lacks part before (newline ∷ rest) h)

lines_of_tail : (part f : Str) → Lacks f → lines_after part f ≡ []
unfolding lines_after
lines_of_tail part f h = rw (append-nil f) at (lines_after-Lacks part f [] h)

tail_of_tail : (part f : Str) → Lacks f → tail_after part f ≡ part ++ f
unfolding tail_after
tail_of_tail part f h = rw (append-nil f) at (tail_after-Lacks part f [] h)

-- What the loop makes of a cursor that has read `part` if the complete lines are `ls` and `tail` is
-- left behind them.
pub record Outcome (part : Str) (ls : List Str) (tail : Str) (c out : Cursor) : Type 0 where
  pub consumed_lem : out.consumed ≡ c.consumed + total_bytes ls
  pub line_no_lem : out.line_no ≡ c.line_no + length ls
  pub calls_lem : out.calls ≡ c.calls ++ deliver c.line_no ls
  pub errors_lem : out.errors + over_count part ≡ c.errors + sum_by over_count ls + over_count tail

Outcome-tail :
    (part f : Str) (c : Cursor) → Tracks part c → Outcome part [] (part ++ f) c (take_fragment c f)
unfolding deliver
Outcome-tail part f c t =
    ground (arith, take_fragment-Keeps f c, take_fragment-errors part f c t, append-nil c.calls)

Outcome-full :
    (part f : Str) (ls : List Str) (tail : Str) (c out : Cursor)
    → Tracks part c
    → Outcome (part ++ f) ls tail (take_fragment c f) out
    → Outcome part ls tail c out
Outcome-full part f ls tail c out t o =
    let k = take_fragment-Keeps f c in
    record {
      consumed_lem = ground (arith, k, o.consumed_lem);
      line_no_lem = ground (arith, k, o.line_no_lem);
      calls_lem = cc (o.calls_lem, k.calls_eq, k.line_no_eq);
      errors_lem = omega (arith, take_fragment-errors part f c t, o.errors_lem);
    }

Outcome-line :
    (part before : Str) (ls : List Str) (tail : Str) (c out : Cursor)
    → Tracks part c
    → let f = before ++ newline ∷ [] in
      Outcome [] ls tail (finish_line (take_fragment c f) f) out
      → Outcome part ((part ++ f) ∷ ls) tail c out
unfolding deliver
Outcome-line part before ls tail c out t o =
    let f = before ++ newline ∷ [] in
    let d = take_fragment c f in
    let k = take_fragment-Keeps f c in
    let n = finish_line-Finishes (part ++ f) before d (take_fragment-Tracks part f c t) in
    record {
      consumed_lem = omega (arith, k.consumed_eq, n.consumed_eq, o.consumed_lem);
      line_no_lem = omega (arith, k.line_no_eq, n.line_no_eq, o.line_no_lem);
      calls_lem =
          o.calls_lem
          ∙ rw (n.calls_eq, n.line_no_eq, k.calls_eq, k.line_no_eq) (step_calls (part ++ f));
      errors_lem = omega (arith, take_fragment-errors part f c t, n.errors_eq, o.errors_lem);
    }
  where
    step_calls :
        (l : Str)
        → (if is_over l then c.calls else c.calls ++ (l, c.line_no + 1) ∷ [])
            ++ deliver (c.line_no + 1) ls
          ≡ c.calls ++ deliver c.line_no (l ∷ ls)
    step_calls l = elim (Bool-cases (is_over l)) [
      | inl e ↦ rw e
      | inr e ↦ rw e (append_assoc c.calls ((l, c.line_no + 1) ∷ []) (deliver (c.line_no + 1) ls))
    ]

-- On every sequence of reads that spells `content`, the loop delivers the complete lines that are
-- not overlong, consumes all complete lines and nothing of the tail, and counts an error for each
-- overlong line and for an overlong tail.
pub read_loop-Outcome :
    (part : Str) {content : Str} {rs : List Read} (c : Cursor)
    → Reads content rs
    → Tracks part c
    → Outcome part (lines_after part content) (tail_after part content) c (read_loop rs c)
unfolding read_loop
read_loop-Outcome part c (terminated {rest} {rs} before h e r) t =
    let f = before ++ newline ∷ [] in
    let d = take_fragment c f in
    let n = finish_line-Finishes (part ++ f) before d (take_fragment-Tracks part f c t) in
    rw (e, lines_after-line part before rest h, tail_after-line part before rest h)
      (Outcome-line part before _ _ c _ t (read_loop-Outcome [] (finish_line d f) r n.tracks))
read_loop-Outcome part c (full {rest} fragment h e r) t =
    rw (e, lines_after-Lacks part fragment rest h, tail_after-Lacks part fragment rest h)
      (Outcome-full part fragment _ _ c _ t (
        read_loop-Outcome (part ++ fragment) (take_fragment c fragment) r
          (take_fragment-Tracks part fragment c t)))
read_loop-Outcome part c (ended content h) t =
    rw (lines_of_tail part content h, tail_of_tail part content h) (Outcome-tail part content c t)
