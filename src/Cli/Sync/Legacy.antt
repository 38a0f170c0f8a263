-- ===== src/Cli/Sync/Legacy.antt =====
-- internal/stintcli/commands_offline.go: `syncOffline`, which runs `syncOfflineQueue` on the legacy queue
-- and on the queue. The legacy queue is `none` where its path is not given, is that of the queue, or has no
-- file; whether its removal succeeds is a parameter. Deduplicating and counting the queues is taken to
-- succeed.
use stint.Prelude.{
  ℕ, zero, suc, ◌+◌, ◌-◌, ◌≤◌, ◌<◌, ◌≡◌, inl, inr, refl, Bool, true, false, not, Option, none, some,
  List, [], ◌∷◌, ◌++◌, ◌==◌, if◌then◌else◌, take, drop, length, length-append, arith, Bool-cases,
  lt→ltb,
}
use stint.Cli.Heartbeat.{Heartbeat}
use stint.Cli.Queue.{delete_duplicates}
use stint.Cli.Sync.{
  Turn, Post, Synced, batch_limit, after_post, sync_loop, bounded, sync_offline_queue,
}
use stint.Cli.Sync.File.{
  written, is_written, appended, rewritten, removed_prefix, delete_queue_duplicates,
}
use stint.Cli.Sync.Conserved.{removed_prefix-written}
use stint.Cli.Sync.Complete.{IsHealthy, sync_offline_queue_lem, length-drop, batch_limit_lem}

-- The two queues in the end, the total that is printed if it is positive, and whether there was no error.
pub record Offline : Type 0 where
  pub legacy : Option (List Heartbeat)
  pub queue : List Heartbeat
  pub total_synced : ℕ
  pub ok : Bool

module _ (limit : ℕ) (remove_ok : Bool) (legacy_env env : ℕ → Turn) where
  -- The second half, with what is left of the legacy queue and the total so far.
  unfoldable pub sync_main : Option (List Heartbeat) → ℕ → List Heartbeat → Offline
  sync_main legacy total queue =
      let s = sync_offline_queue written true limit env queue in
      record {
        legacy = legacy;
        queue = s.queue;
        total_synced = if s.ok then total + s.total_synced else total;
        ok = s.ok;
      }

  unfoldable pub after_legacy : Synced → List Heartbeat → Offline
  unfolding sync_main
  after_legacy s queue =
      let stopped : Offline = record {
        legacy = some s.queue;
        queue = queue;
        total_synced = if s.ok then s.total_synced else 0;
        ok = false;
      } in
      let removed = sync_main none s.total_synced queue in
      if not s.ok then stopped else if remove_ok then removed else stopped

  -- `syncOffline`, with a limit that is not negative
  unfoldable pub sync_offline : Option (List Heartbeat) → List Heartbeat → Offline
  unfolding after_legacy sync_main
  sync_offline none queue = sync_main none 0 queue
  sync_offline (some old) queue =
      after_legacy (sync_offline_queue written true limit legacy_env old) queue

length-take_le :
    (n : ℕ) (q : List Heartbeat) → (length (take n q) ≤ n) × (length (take n q) ≤ length q)
length-take_le zero q = (omega arith, omega arith)
length-take_le (suc n) [] = (omega arith, omega arith)
length-take_le (suc n) (x ∷ q) =
    let (few, inside) = length-take_le n q in (omega arith, omega arith)

-- At most `n` heartbeats of a queue of `count` have left it.
abbrev Keeps : ℕ → ℕ → Synced → Type 0
Keeps count n s = count ≤ length s.queue + n

after_post-Keeps :
    (t : Turn) (batch rest : List Heartbeat) (total n : ℕ) (posts : List Post)
    (next : List Heartbeat → List Post → Synced) (o : Option (List Heartbeat))
    → t.append ≡ written
    → ((q : List Heartbeat) (done : List Post) → Keeps (length q) n (next q done))
    → Keeps (length rest) n (after_post t batch rest total posts next o)
unfolding after_post appended is_written
after_post-Keeps t batch rest total n posts next none a keeps =
    rw a (omega (arith, length-append rest batch))
after_post-Keeps t batch rest total n posts next (some []) a keeps = keeps rest _
after_post-Keeps t batch rest total n posts next (some (r ∷ rs)) a keeps =
    let kept = keeps (rest ++ r ∷ rs) (record { batch = batch; requeue = r ∷ rs } ∷ posts) in
    rw a (omega (arith, kept, length-append rest (r ∷ rs)))

sync_loop-Keeps :
    (fuel turn : ℕ) (env : ℕ → Turn) (remaining total : ℕ) (q : List Heartbeat) (posts : List Post)
    → ((n : ℕ) → IsHealthy (env n))
    → Keeps (length q) remaining (sync_loop fuel turn env remaining total q posts)
unfolding sync_loop is_written
sync_loop-Keeps zero turn env remaining total q posts healthy = omega arith
sync_loop-Keeps (suc n) turn env remaining total q posts healthy =
    let t = env turn in
    let batch = take (batch_limit remaining) q in
    let count = length batch in
    let (few, inside) = length-take_le (batch_limit remaining) q in
    let left = length-drop count q inside in
    let gone : removed_prefix t.remove count q ≡ drop count q =
      removed_prefix-written t.remove count q (rw (healthy turn).remove_lem refl) in
    let next : List Heartbeat → List Post → Synced =
      λ q' done. sync_loop n (turn + 1) env (remaining - count) (total + count) q' done in
    let kept =
      after_post-Keeps t batch (drop count q) total (remaining - count) posts next (t.post batch)
        (healthy turn).append_lem
        (λ q' done. sync_loop-Keeps n (turn + 1) env _ _ q' done healthy) in
    elim (Bool-cases (remaining == 0)) [
      | inl e ↦ rw e (omega arith)
      | inr e ↦
          let (limited, _) = batch_limit_lem remaining (ground arith) in
          elim (Bool-cases (count == 0)) [
            | inl b ↦ rw (e, (healthy turn).read_lem, b) (omega arith)
            | inr b ↦
                rw (e, (healthy turn).read_lem, b, gone, (healthy turn).remove_lem)
                  (omega (arith, kept, few, limited, left))
          ]
    ]

-- What is in a queue behind a positive limit stays there.
sync_offline_queue-Keeps :
    (limit : ℕ) (env : ℕ → Turn) (q : List Heartbeat)
    → ((n : ℕ) → IsHealthy (env n))
    → 0 < limit
    → limit < length (delete_duplicates q)
    → Keeps (length (delete_duplicates q)) limit (sync_offline_queue written true limit env q)
unfolding sync_offline_queue bounded delete_queue_duplicates rewritten
sync_offline_queue-Keeps limit env q0 healthy positive more =
    let q = delete_duplicates q0 in
    rw (lt→ltb 0 limit positive, lt→ltb limit (length q) more)
      (sync_loop-Keeps limit 0 env limit 0 q [] healthy)

-- Let nothing fail, and let the legacy queue hold more heartbeats, without near-duplicates, than a positive
-- limit. Then the legacy queue is removed, although its synchronisation has left heartbeats in it: all but
-- as many as the limit, at least. They are not in the queue either, which ends as it would have without
-- a legacy queue.
pub sync_offline-loses :
    (limit : ℕ) (legacy_env env : ℕ → Turn) (old queue : List Heartbeat)
    → ((n : ℕ) → IsHealthy (legacy_env n))
    → 0 < limit
    → limit < length (delete_duplicates old)
    → let left = (sync_offline_queue written true limit legacy_env old).queue in
      let result = sync_offline limit true legacy_env env (some old) queue in
      (result.legacy ≡ none)
      × (result.queue ≡ (sync_offline limit true legacy_env env none queue).queue)
      × (length (delete_duplicates old) ≤ length left + limit)
      × (0 < length left)
unfolding sync_offline after_legacy sync_main
sync_offline-loses limit legacy_env env old queue healthy positive more =
    let kept = sync_offline_queue-Keeps limit legacy_env old healthy positive more in
    let (ok, total, all) = sync_offline_queue_lem limit legacy_env old healthy in
    rw ok (refl, refl, kept, omega (arith, kept))
