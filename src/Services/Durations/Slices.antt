-- ===== src/Services/Durations/Slices.antt =====
-- internal/services/durations.go: `sliceNames` and `sliceName`, the names under which a heartbeat counts.
use stint.Prelude.{Bool, false, ◌||◌, List, [], ◌∷◌, ◌++◌, ◌==◌, if◌then◌else◌}
use stint.Prelude.Text.{Str, codes, str_eq}
use stint.Pricing.Normalize.{Strings}
use stint.Services.Heartbeat.{Heartbeat, is_empty, normalize_commit_hash}

abbrev pub or_unknown : Str → Str
or_unknown s = if is_empty s then codes "Unknown" else s

-- `sliceName`
unfoldable pub slice_name : Heartbeat → Str → Str
unfolding normalize_commit_hash
slice_name h slice_by =
    if str_eq slice_by (codes "language")
    then (if is_empty h.language then codes "Other" else h.language)
    else if str_eq slice_by (codes "editor")
    then or_unknown h.editor
    else if str_eq slice_by (codes "operating_system")
    then or_unknown h.operating_system
    else if str_eq slice_by (codes "machine")
    then or_unknown h.machine_name
    else if str_eq slice_by (codes "category")
    then or_unknown h.category
    else if str_eq slice_by (codes "branch")
    then h.branch
    else if str_eq slice_by (codes "commit")
    then or_unknown (normalize_commit_hash h)
    else if str_eq slice_by (codes "dependencies")
    then or_unknown h.dependencies
    else or_unknown h.project

-- The first piece and the others of `strings.Split(s, ",")`.
unfoldable pub split_commas : Str → Str × List Str
split_commas [] = ([], [])
split_commas (c ∷ s) =
    let (piece, pieces) = split_commas s in
    if c == b',' then ([], piece ∷ pieces) else (c ∷ piece, pieces)

unfoldable pub occurs : Str → List Str → Bool
occurs s [] = false
occurs s (t ∷ ts) = str_eq t s || occurs s ts

-- The loop over the pieces, with `out`, whose elements are the keys of `seen`.
unfoldable pub distinct_names : Strings → List Str → List Str → List Str
unfolding occurs
distinct_names st [] out = out
distinct_names st (piece ∷ pieces) out =
    let trimmed = st.trim_space piece in
    distinct_names st pieces
      (if is_empty trimmed || occurs trimmed out then out else out ++ trimmed ∷ [])

unfoldable pub sorted_or_unknown : (List Str → List Str) → List Str → List Str
sorted_or_unknown sort_names [] = codes "Unknown" ∷ []
sorted_or_unknown sort_names (n ∷ ns) = sort_names (n ∷ ns)

-- `sliceNames`
unfoldable pub slice_names : Strings → (List Str → List Str) → Heartbeat → Str → List Str
unfolding split_commas distinct_names sorted_or_unknown
slice_names st sort_names h slice_by =
    let name = slice_name h slice_by in
    let (piece, pieces) = split_commas h.dependencies in
    if str_eq slice_by (codes "dependencies")
    then (if is_empty h.dependencies
        then codes "Unknown" ∷ []
        else sorted_or_unknown sort_names (distinct_names st (piece ∷ pieces) []))
    else (if is_empty name then [] else name ∷ [])
