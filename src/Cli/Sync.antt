-- ===== src/Cli/Sync.antt =====
-- internal/stintcli/commands_offline.go: `syncOfflineQueue`, over a queue in a file of JSON lines. Which
-- reads succeed, how the writes end, and what the server makes of a batch, is an environment that answers
-- each turn of the loop.
pub mod File
pub mod Conserved
pub mod Complete
pub mod Legacy
use stint.Prelude.{
  take, ℕ, zero, suc, ◌+◌, ◌-◌, Bool, true, false, not, ◌&&◌, Option, none, some, List, [], ◌∷◌,
  ◌++◌, ltb, ◌==◌, if◌then◌else◌, length, drop,
}
use stint.Cli.Heartbeat.{Heartbeat}
use File.{Write, is_written, appended, removed_prefix, delete_queue_duplicates}

abbrev pub default_heartbeat_limit : ℕ
default_heartbeat_limit = 10

-- `postOfflineHeartbeats` is `none` on an error, and else what is to be requeued.
pub record Turn : Type 0 where
  pub read_ok : Bool
  pub remove : Write
  pub append : Write
  pub post : List Heartbeat → Option (List Heartbeat)

-- A batch that was posted without an error, and what of it is to be requeued.
pub record Post : Type 0 where
  pub batch : List Heartbeat
  pub requeue : List Heartbeat

-- The queue in the end, `totalSynced`, whether there was no error, and the posts in between.
pub record Synced : Type 0 where
  pub queue : List Heartbeat
  pub total_synced : ℕ
  pub ok : Bool
  pub posts : List Post

-- An end of the loop.
abbrev pub ended : List Heartbeat → ℕ → Bool → List Post → Synced
ended q total ok posts = record { queue = q; total_synced = total; ok = ok; posts = posts }

unfoldable pub batch_limit : ℕ → ℕ
batch_limit remaining =
    if ltb remaining default_heartbeat_limit then remaining else default_heartbeat_limit

-- What follows a post: `next` is the rest of the loop from a queue.
unfoldable pub after_post :
    Turn
    → List Heartbeat
    → List Heartbeat
    → ℕ
    → List Post
    → (List Heartbeat → List Post → Synced)
    → Option (List Heartbeat)
    → Synced
unfolding appended is_written
after_post t batch rest total posts next none =
    ended (appended t.append rest batch) total false posts
after_post t batch rest total posts next (some []) =
    next rest (record { batch = batch; requeue = [] } ∷ posts)
after_post t batch rest total posts next (some (r ∷ rs)) =
    let done = record { batch = batch; requeue = r ∷ rs } ∷ posts in
    let q = appended t.append rest (r ∷ rs) in
    if is_written t.append then next q done else ended q total false done

-- The loop; every turn that goes on takes at least one from `remaining`, which bounds the fuel.
unfoldable pub sync_loop :
    (fuel turn : ℕ) → (ℕ → Turn) → (remaining total : ℕ) → List Heartbeat → List Post → Synced
unfolding after_post batch_limit removed_prefix is_written
sync_loop zero turn env remaining total q posts = ended q total true posts
sync_loop (suc n) turn env remaining total q posts =
    let t = env turn in
    let batch = take (batch_limit remaining) q in
    let rest = removed_prefix t.remove (length batch) q in
    let next = λ (q' : List Heartbeat) (done : List Post).
      sync_loop n (turn + 1) env (remaining - length batch) (total + length batch) q' done in
    let went_on = after_post t batch rest total posts next (t.post batch) in
    if remaining == 0
    then ended q total true posts
    else (if not t.read_ok
        then ended q total false posts
        else (if length batch == 0
            then ended q total true posts
            else (if is_written t.remove then went_on else ended rest total false posts)))

-- `originalCount`
unfoldable pub bounded : ℕ → ℕ → ℕ
bounded limit count = if ltb 0 limit && ltb limit count then limit else count

unfoldable pub sync_offline_queue : Write → Bool → ℕ → (ℕ → Turn) → List Heartbeat → Synced
unfolding sync_loop bounded delete_queue_duplicates
sync_offline_queue dedupe count_ok limit env q0 =
    let (q, dedupe_ok) = delete_queue_duplicates dedupe q0 in
    let n = bounded limit (length q) in
    if not (dedupe_ok && count_ok) then ended q 0 false [] else sync_loop n 0 env n 0 q []
