-- ===== src/Cli/Sync/Complete.antt =====
-- Synchronisations in which nothing fails.
use stint.Prelude.{
  take, ℕ, zero, suc, ◌+◌, ◌-◌, ◌≤◌, ◌<◌, ◌≡◌, ◌≢◌, refl, true, false, Option, none, some, List, [],
  ◌∷◌, ◌++◌, ◌==◌, length, length-append, drop, arith, Bool-cases, inl, inr, sum_by,
}
use stint.Cli.Heartbeat.{Heartbeat}
use stint.Cli.Queue.{delete_duplicates}
use stint.Cli.Sync.{
  Turn, Post, Synced, batch_limit, after_post, sync_loop, bounded, sync_offline_queue,
}
use stint.Cli.Sync.File.{
  written, is_written, appended, rewritten, removed_prefix, delete_queue_duplicates,
}
use stint.Cli.Sync.Conserved.{removed_prefix-written}

-- No call fails, and every batch is posted.
pub record IsHealthy (t : Turn) : Type 0 where
  pub read_lem : t.read_ok ≡ true
  pub remove_lem : t.remove ≡ written
  pub append_lem : t.append ≡ written
  pub post_lem : (batch : List Heartbeat) → t.post batch ≢ none

length-take : (n : ℕ) (q : List Heartbeat) → n ≤ length q → length (take n q) ≡ n
length-take zero q h = refl
length-take (suc n) [] h = absurd (omega arith)
length-take (suc n) (x ∷ q) h = omega (arith, length-take n q (omega arith))

pub length-drop : (n : ℕ) (q : List Heartbeat) → n ≤ length q → length (drop n q) + n ≡ length q
length-drop zero q h = omega arith
length-drop (suc n) [] h = absurd (omega arith)
length-drop (suc n) (x ∷ q) h = omega (arith, length-drop n q (omega arith))

-- The number of heartbeats that were posted without an error.
abbrev pub posted_count : List Post → ℕ
posted_count = sum_by (λ p. length p.batch)

-- The loop ends without an error, with this total, and has posted as many.
abbrev Reaches : ℕ → Synced → Type 0
Reaches goal s = (s.ok ≡ true) × (s.total_synced ≡ goal) × (posted_count s.posts ≡ goal)

after_post-Reaches :
    (t : Turn) (batch rest : List Heartbeat) (total goal : ℕ) (posts : List Post)
    (next : List Heartbeat → List Post → Synced) (o : Option (List Heartbeat))
    → t.append ≡ written
    → o ≢ none
    → ((q : List Heartbeat) (done : List Post)
        → length rest ≤ length q
        → posted_count done ≡ posted_count posts + length batch
        → Reaches goal (next q done))
    → Reaches goal (after_post t batch rest total posts next o)
unfolding after_post appended is_written
after_post-Reaches t batch rest total goal posts next none a o n = absurd (o refl)
after_post-Reaches t batch rest total goal posts next (some []) a o n =
    n rest _ (omega arith) (omega arith)
after_post-Reaches t batch rest total goal posts next (some (r ∷ rs)) a o n =
    rw a (n (rest ++ r ∷ rs) _ (omega (arith, length-append rest (r ∷ rs))) (omega arith))

pub batch_limit_lem :
    (remaining : ℕ)
    → remaining ≢ 0
    → (batch_limit remaining ≤ remaining) × (0 < batch_limit remaining)
unfolding batch_limit
batch_limit_lem remaining h = ground arith

sync_loop-Reaches :
    (fuel turn : ℕ) (env : ℕ → Turn) (remaining total : ℕ) (q : List Heartbeat) (posts : List Post)
    → ((n : ℕ) → IsHealthy (env n))
    → remaining ≤ fuel
    → remaining ≤ length q
    → posted_count posts ≡ total
    → Reaches (total + remaining) (sync_loop fuel turn env remaining total q posts)
unfolding sync_loop is_written
sync_loop-Reaches zero turn env remaining total q posts healthy f l p =
    (refl, omega arith, omega arith)
sync_loop-Reaches (suc n) turn env remaining total q posts healthy f l p =
    elim (Bool-cases (remaining == 0)) [
      | inl e ↦ rw e (refl, ground arith, ground arith)
      | inr e ↦
          let some_left : remaining ≢ 0 = ground arith in
          let t = env turn in
          let batch = take (batch_limit remaining) q in
          let count = length batch in
          let (few, at_least_one) = batch_limit_lem remaining some_left in
          let size = length-take (batch_limit remaining) q (omega arith) in
          let left = length-drop count q (omega arith) in
          let full : (count == 0) ≡ false = ground (arith, size, at_least_one) in
          let gone : removed_prefix t.remove count q ≡ drop count q =
            removed_prefix-written t.remove count q (rw (healthy turn).remove_lem refl) in
          rw (e, (healthy turn).read_lem, full, gone, (healthy turn).remove_lem)
            (after_post-Reaches t batch (drop count q) total (total + remaining) posts
              (λ q' done. sync_loop n (turn + 1) env (remaining - count) (total + count) q' done)
              (t.post batch) (healthy turn).append_lem ((healthy turn).post_lem batch)
              (λ q' done longer sent.
                let (ok, reached, all) =
                  sync_loop-Reaches n (turn + 1) env (remaining - count) (total + count) q' done
                    healthy (omega arith) (omega arith) (omega arith) in
                (ok, omega arith, omega arith)))
    ]

-- Where nothing fails, a synchronisation ends without an error after it has posted, in its batches
-- together, as many heartbeats as the queue held without its near-duplicates, or as many as the limit, if
-- that is positive and smaller, however much of them the server sends back; and it reports this number.
pub sync_offline_queue_lem :
    (limit : ℕ) (env : ℕ → Turn) (q0 : List Heartbeat)
    → ((n : ℕ) → IsHealthy (env n))
    → let s = sync_offline_queue written true limit env q0 in
      let goal = bounded limit (length (delete_duplicates q0)) in
      (s.ok ≡ true) × (s.total_synced ≡ goal) × (posted_count s.posts ≡ goal)
unfolding sync_offline_queue delete_queue_duplicates rewritten
sync_offline_queue_lem limit env q0 healthy =
    let q = delete_duplicates q0 in
    let n = bounded limit (length q) in
    let (ok, total, all) =
      sync_loop-Reaches n 0 env n 0 q [] healthy (omega arith) (bounded_le limit (length q)) refl in
    (ok, omega arith, omega arith)
  where
    bounded_le : (l c : ℕ) → bounded l c ≤ c
    bounded_le l c = unfold bounded in ground arith
