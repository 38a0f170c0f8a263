-- ===== src/Services/Prepare/Language.antt =====
-- internal/services/heartbeat.go: `inferLanguageFromEntity`. The code ranges over a map of extensions, in
-- an order that Go does not specify: the order is an argument.
use stint.Prelude.{◌||◌, List, [], ◌∷◌, if◌then◌else◌}
use stint.Prelude.Text.{Str, codes, str_eq}
use stint.Pricing.Normalize.{Strings}
use stint.Services.Heartbeat.{is_empty}
use stint.Services.Rules.{has_suffix}

-- `extensions`
abbrev pub extensions : List (Str × Str)
extensions =
    (codes ".bash", codes "Bash")
    ∷ (codes ".c", codes "C")
    ∷ (codes ".cc", codes "C++")
    ∷ (codes ".cpp", codes "C++")
    ∷ (codes ".css", codes "CSS")
    ∷ (codes ".go", codes "Go")
    ∷ (codes ".h", codes "C")
    ∷ (codes ".hpp", codes "C++")
    ∷ (codes ".html", codes "HTML")
    ∷ (codes ".java", codes "Java")
    ∷ (codes ".js", codes "JavaScript")
    ∷ (codes ".json", codes "JSON")
    ∷ (codes ".jsx", codes "JavaScript")
    ∷ (codes ".kt", codes "Kotlin")
    ∷ (codes ".kts", codes "Kotlin")
    ∷ (codes ".lua", codes "Lua")
    ∷ (codes ".m", codes "Objective-C")
    ∷ (codes ".md", codes "Markdown")
    ∷ (codes ".mjs", codes "JavaScript")
    ∷ (codes ".mm", codes "Objective-C++")
    ∷ (codes ".py", codes "Python")
    ∷ (codes ".rb", codes "Ruby")
    ∷ (codes ".rs", codes "Rust")
    ∷ (codes ".sh", codes "Bash")
    ∷ (codes ".sql", codes "SQL")
    ∷ (codes ".swift", codes "Swift")
    ∷ (codes ".toml", codes "TOML")
    ∷ (codes ".ts", codes "TypeScript")
    ∷ (codes ".tsx", codes "TypeScript")
    ∷ (codes ".vue", codes "Vue")
    ∷ (codes ".yaml", codes "YAML")
    ∷ (codes ".yml", codes "YAML")
    ∷ (codes ".zsh", codes "Zsh")
    ∷ []

-- The loop over the extensions.
unfoldable pub language_by : List (Str × Str) → Str → Str
language_by [] text = []
language_by ((extension, language) ∷ order) text =
    if has_suffix text extension then language else language_by order text

-- `inferLanguageFromEntity`; `base` is `filepath.Base`.
unfoldable pub infer_language_from_entity : Strings → (Str → Str) → List (Str × Str) → Str → Str
unfolding language_by
infer_language_from_entity st base order entity0 =
    let entity = st.trim_space entity0 in
    let lower_filename = st.to_lower (base entity) in
    let lower_entity = st.to_lower entity in
    if is_empty entity
    then []
    else if str_eq lower_filename (codes "go.mod")
    then codes "Go"
    else if str_eq lower_filename (codes "cmakelists.txt")
    then codes "CMake"
    else if str_eq lower_filename (codes "dockerfile")
        || has_suffix lower_filename (codes ".dockerfile")
    then codes "Docker"
    else if str_eq lower_filename (codes "makefile")
    then codes "Makefile"
    else if has_suffix lower_entity (codes ".pbxproj")
    then codes "Xcode Project"
    else language_by order lower_entity
