-- ===== src/Services/Prepare/Project.antt =====
-- internal/services/heartbeat.go: the detection of a heartbeat's project and branch in the file system.
-- `path/filepath` and the files are parameters; `read_file` is `none` where reading fails.
use stint.Prelude.{
  ℕ, zero, suc, Bool, not, ◌&&◌, ◌||◌, Option, none, some, List, [], ◌∷◌, ◌==◌, if◌then◌else◌,
}
use stint.Prelude.Text.{Str, codes, str_eq}
use stint.Pricing.Normalize.{Strings, has_prefix, trim_prefix}
use stint.Services.Heartbeat.{Heartbeat, is_empty}

pub record Files : Type 0 where
  pub is_directory : Str → Bool
  pub read_file : Str → Option Str
  pub temp_dir : Str
  pub clean : Str → Str
  pub dir : Str → Str
  pub base : Str → Str
  pub join : Str → Str → Str
  pub is_abs : Str → Bool

-- `projectDetectionResult`
pub record Detection : Type 0 where
  pub project : Str
  pub branch : Str

-- `strings.ReplaceAll(s, "\r\n", "\n")`
unfoldable pub unix_lines : Str → Str
unix_lines [] = []
unix_lines (c ∷ []) = c ∷ []
unix_lines (c ∷ d ∷ s) =
    let rest = unix_lines (d ∷ s) in if c == 13 && d == 10 then rest else c ∷ rest

-- The first piece and the others of `strings.Split(s, "\n")`.
unfoldable pub split_lines : Str → Str × List Str
split_lines [] = ([], [])
split_lines (c ∷ s) =
    let (line, lines) = split_lines s in if c == 10 then ([], line ∷ lines) else (c ∷ line, lines)

unfoldable pub second_line : Strings → List Str → Str
second_line st [] = []
second_line st (line ∷ lines) = st.trim_space line

module _ (st : Strings) (fs : Files) where
  -- The loop of `parentDirs`; `i < 500` is its fuel in the source.
  unfoldable pub parent_loop : ℕ → Str → Str → List Str
  parent_loop zero temp_root start = []
  parent_loop (suc i) temp_root start =
      let parent = fs.dir start in
      let rest = parent_loop i temp_root parent in
      if str_eq start (codes ".") || str_eq start (codes "/") || str_eq start temp_root
      then []
      else if str_eq parent start
      then start ∷ []
      else start ∷ rest

  -- `parentDirs`
  unfoldable pub parent_dirs : Str → List Str
  unfolding parent_loop
  parent_dirs start = parent_loop 500 (fs.clean fs.temp_dir) (fs.clean start)

  unfoldable pub project_of_file : Str → Str → Detection
  unfolding unix_lines split_lines second_line
  project_of_file dir text =
      let (line, lines) = split_lines (unix_lines text) in
      record {
        project = if is_empty (st.trim_space line) then fs.base dir else st.trim_space line;
        branch = second_line st lines;
      }

  -- The loop of `detectWakaTimeProjectFile`.
  unfoldable pub project_file_loop : List Str → Option Detection
  unfolding project_of_file
  project_file_loop [] = none
  project_file_loop (dir ∷ dirs) =
      let rest = project_file_loop dirs in
      elim (fs.read_file (fs.join dir (codes ".wakatime-project"))) [
        | none ↦ rest
        | some text ↦ some (project_of_file dir text)
      ]

  -- `detectWakaTimeProjectFile`
  unfoldable pub detect_wakatime_project_file : Str → Option Detection
  unfolding project_file_loop parent_dirs
  detect_wakatime_project_file start = project_file_loop (parent_dirs start)

  -- `readGitBranch`
  unfoldable pub read_git_branch : Str → Str
  read_git_branch head_path = elim (fs.read_file head_path) [
    | none ↦ []
    | some text ↦
        let head = st.trim_space text in
        if has_prefix head (codes "ref: refs/heads/")
        then trim_prefix head (codes "ref: refs/heads/")
        else []
  ]

  -- The directory that a `.git` file names.
  unfoldable pub git_dir_of : Str → Str → Str
  git_dir_of dir text =
      let git_dir = st.trim_space (trim_prefix text (codes "gitdir:")) in
      if fs.is_abs git_dir then git_dir else fs.clean (fs.join dir git_dir)

  unfoldable pub git_at : Str → Str → Detection
  unfolding read_git_branch
  git_at dir git_dir = record {
    project = fs.base dir;
    branch = read_git_branch (fs.join git_dir (codes "HEAD"));
  }

  -- The loop of `detectGitProject`.
  unfoldable pub git_loop : List Str → Option Detection
  unfolding git_at git_dir_of
  git_loop [] = none
  git_loop (dir ∷ dirs) =
      let git_path = fs.join dir (codes ".git") in
      let rest = git_loop dirs in
      if fs.is_directory git_path
      then some (git_at dir git_path)
      else (elim (fs.read_file git_path) [
        | none ↦ rest
        | some text ↦
            if has_prefix text (codes "gitdir:")
            then some (git_at dir (git_dir_of dir text))
            else rest
      ])

  -- `detectGitProject`
  unfoldable pub detect_git_project : Str → Option Detection
  unfolding git_loop parent_dirs
  detect_git_project start = git_loop (parent_dirs start)

-- A detected project and branch, where the heartbeat has none.
unfoldable pub fill_in : Option Detection → Heartbeat → Heartbeat
fill_in none h = h
fill_in (some d) h = record h {
  project = if is_empty h.project then d.project else h.project;
  branch = if is_empty h.branch then d.branch else h.branch;
}

-- `applyProjectDetection`
unfoldable pub apply_project_detection : Strings → Files → Heartbeat → Heartbeat
unfolding fill_in detect_wakatime_project_file detect_git_project
apply_project_detection st fs h =
    let start = if fs.is_directory h.entity then h.entity else fs.dir h.entity in
    let h' = fill_in (detect_wakatime_project_file st fs start) h in
    if is_empty h.entity
    then h
    else if not (is_empty h'.project) && not (is_empty h'.branch)
    then h'
    else fill_in (detect_git_project st fs start) h'
