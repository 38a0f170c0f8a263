-- ===== src/Collector/Jsonl/Reader.antt =====
-- What `bufio.Reader.ReadSlice('\n')` is documented to return, call after call, while it reads a
-- given rest of a file.
use stint.Prelude.{◌≡◌, ◌≢◌, List, [], ◌∷◌, ◌++◌, All}
use stint.Prelude.Text.{Str}
use stint.Collector.Jsonl.{newline, ok, buffer_full, eof, Read}

abbrev pub Lacks : Str → Type 0
Lacks = All (λ c. c ≢ newline)

-- A fragment that ends at the first newline, a full buffer with none in it, or all that is left.
pub data Reads : Str → List Read → Type 0 where
  terminated :
      {rest : Str} {rs : List Read} (before : Str) {content : Str}
      → Lacks before
      → content ≡ before ++ newline ∷ rest
      → Reads rest rs
      → Reads content ((before ++ newline ∷ [], ok) ∷ rs)
  full :
      {rest : Str} {rs : List Read} (fragment : Str) {content : Str}
      → Lacks fragment
      → content ≡ fragment ++ rest
      → Reads rest rs
      → Reads content ((fragment, buffer_full) ∷ rs)
  ended : (content : Str) → Lacks content → Reads content ((content, eof) ∷ [])
