-- ===== src/Collector/Jsonl/Lines.antt =====
-- The reference: the complete lines of a text, and the calls of `perLine` that they deserve.
use stint.Prelude.{
  ℕ, ◌+◌, ◌≡◌, refl, Bool, List, [], ◌∷◌, ◌++◌, arith, ltb, ◌==◌, if◌then◌else◌, length,
  length-append, append_assoc, append-nil, sum_by, drop, drop-append, Bool-cases, inl, inr,
  All-append, ◌∙◌,
}
use stint.Prelude.Text.{Str}
use stint.Collector.Jsonl.{max_jsonl_line_bytes, newline, Call}
use stint.Collector.Jsonl.Reader.{Lacks}

-- The newline-terminated lines of `part ++ s`, where `part` holds no newline.
unfoldable pub lines_after : Str → Str → List Str
lines_after part [] = []
lines_after part (c ∷ s) =
    let done = (part ++ c ∷ []) ∷ lines_after [] s in
    let more = lines_after (part ++ c ∷ []) s in if c == newline then done else more

-- What stands behind the last newline.
unfoldable pub tail_after : Str → Str → Str
tail_after part [] = part
tail_after part (c ∷ s) =
    let done = tail_after [] s in
    let more = tail_after (part ++ c ∷ []) s in if c == newline then done else more

abbrev pub is_over : Str → Bool
is_over l = ltb max_jsonl_line_bytes (length l)

-- The lines are numbered from `n + 1`; an overlong line is counted and not delivered.
unfoldable pub deliver : ℕ → List Str → List Call
deliver n [] = []
deliver n (l ∷ ls) = let rest = deliver (n + 1) ls in if is_over l then rest else (l, n + 1) ∷ rest

abbrev pub over_count : Str → ℕ
over_count l = if is_over l then 1 else 0

abbrev pub total_bytes : List Str → ℕ
total_bytes = sum_by length

pub lines_after-Lacks :
    (part before s : Str)
    → Lacks before
    → lines_after part (before ++ s) ≡ lines_after (part ++ before) s
unfolding lines_after
lines_after-Lacks part [] s h = rw append-nil
lines_after-Lacks part (c ∷ before) s (n, h) =
    ground (arith, lines_after-Lacks (part ++ c ∷ []) before s h, append_assoc part (c ∷ []) before)

pub tail_after-Lacks :
    (part before s : Str)
    → Lacks before
    → tail_after part (before ++ s) ≡ tail_after (part ++ before) s
unfolding tail_after
tail_after-Lacks part [] s h = rw append-nil
tail_after-Lacks part (c ∷ before) s (n, h) =
    ground (arith, tail_after-Lacks (part ++ c ∷ []) before s h, append_assoc part (c ∷ []) before)

-- The complete lines and the tail make up the whole text.
pub total_bytes-lines_after :
    (part s : Str)
    → total_bytes (lines_after part s) + length (tail_after part s) ≡ length part + length s
unfolding lines_after tail_after
total_bytes-lines_after part [] = omega arith
total_bytes-lines_after part (c ∷ s) = ground (
  arith,
  total_bytes-lines_after [] s,
  total_bytes-lines_after (part ++ c ∷ []) s,
  length-append part (c ∷ []),
)

-- Reading on where the tail began finds just the lines that a reading of the whole finds there.
pub lines_after-append :
    (part s more : Str)
    → lines_after part (s ++ more) ≡ lines_after part s ++ lines_after (tail_after part s) more
unfolding lines_after tail_after
lines_after-append part [] more = refl
lines_after-append part (c ∷ s) more =
    ground (arith, lines_after-append [] s more, lines_after-append (part ++ c ∷ []) s more)

pub tail_after-append :
    (part s more : Str) → tail_after part (s ++ more) ≡ tail_after (tail_after part s) more
unfolding tail_after
tail_after-append part [] more = refl
tail_after-append part (c ∷ s) more =
    ground (arith, tail_after-append [] s more, tail_after-append (part ++ c ∷ []) s more)

pub tail_after-Lacks_self : (part s : Str) → Lacks part → Lacks (tail_after part s)
unfolding tail_after
tail_after-Lacks_self part [] h = h
tail_after-Lacks_self part (c ∷ s) h = elim (Bool-cases (c == newline)) [
  | inl e ↦ rw e (tail_after-Lacks_self [] s tt)
  | inr e ↦
      rw e
        (tail_after-Lacks_self (part ++ c ∷ []) s (All-append _ part (c ∷ []) h (ground arith, tt)))
]

-- The tail is what is left of the text behind its complete lines.
pub drop-total_bytes :
    (part s : Str) → drop (total_bytes (lines_after part s)) (part ++ s) ≡ tail_after part s
unfolding lines_after tail_after
drop-total_bytes part [] = rw append-nil
drop-total_bytes part (c ∷ s) = elim (Bool-cases (c == newline)) [
  | inl e ↦ rw e (
      rw (append_assoc part (c ∷ []) s) at
        (drop-append (part ++ c ∷ []) s (total_bytes (lines_after [] s)) ∙ drop-total_bytes [] s))
  | inr e ↦ rw e (rw (append_assoc part (c ∷ []) s) at (drop-total_bytes (part ++ c ∷ []) s))
]

pub deliver-append :
    (n : ℕ) (xs ys : List Str) → deliver n (xs ++ ys) ≡ deliver n xs ++ deliver (n + length xs) ys
unfolding deliver
deliver-append n [] ys = ground arith
deliver-append n (x ∷ xs) ys = ground (arith, deliver-append (n + 1) xs ys)
