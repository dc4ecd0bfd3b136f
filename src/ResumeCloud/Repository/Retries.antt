-- ===== src/ResumeCloud/Repository/Retries.antt =====
-- `create_or_replay` where the rate limit refuses: what it leaves, and what the same request finds later.
use soloscale_ai_os.Prelude.{
  List, ℕ, ◌+◌, ◌≡◌, ◌≤◌, ◌<◌, ap, ◌∙◌, Bool, true, false, none, [], ◌∷◌, ◌++◌, any, filter_by,
  String, Result, ok, err, arith,
}
use soloscale_ai_os.ResumeCloud.Models.{Task, RateLimit, Database}
use soloscale_ai_os.ResumeCloud.Table.{first}
use soloscale_ai_os.ResumeCloud.RateLimit.{token, row_of, consume_rate_limit}
use soloscale_ai_os.ResumeCloud.RateLimit.Retry.{held, consume-exact, consume-again}
use soloscale_ai_os.ResumeCloud.RateLimit.Refusal.{IsPast, leb-true, leb-false}
use soloscale_ai_os.ResumeCloud.Repository
use soloscale_ai_os.ResumeCloud.Repository.Statements.{has_id}
use soloscale_ai_os.ResumeCloud.Repository.{
  NewTask, RepositoryError, rate_limit_exceeded, has_key, inserted,
}

creates :
    (sha256_text : String → String) (now clock : ℕ) (new : NewTask) (db : Database)
    → first (filter_by (has_key new.idempotency_key) db.tasks) ≡ none
    → any (has_id new.task_id) db.tasks ≡ false
    → let call = consume_rate_limit new.policy new.rate_limit_now new.client_id db.rate_limits in
      (call.0.0 ≡ true
        → Repository.create_or_replay sha256_text now clock new db ≡ (
          ok (inserted sha256_text now clock new, false),
          record db {
            tasks = db.tasks ++ inserted sha256_text now clock new ∷ [];
            rate_limits = call.1;
          },
        ))
      × (call.0.0 ≡ false
          → Repository.create_or_replay sha256_text now clock new db
            ≡ (err (rate_limit_exceeded call.0.1), db))
unfolding Repository.create_or_replay
creates sha256_text now clock new db free unused = (λ h. ground arith, λ h. ground arith)

-- For a request whose key and id are not in the table, with a bucket that can hold a token and is refilled,
-- and no instant recorded that is later than the request's. If its client holds a whole token, its row
-- is added. If not, it is refused with a wait, and leaves the database as it was, the token count
-- included; the request can then be made again: later than the wait its row is added, and earlier it is
-- refused again.
pub create-retry :
    (sha256_text : String → String) (now clock now' clock' later : ℕ) (new : NewTask)
    (db : Database)
    → 1 ≤ new.policy.capacity
    → 0 < new.policy.refill_per_second
    → IsPast new.rate_limit_now db.rate_limits
    → first (filter_by (has_key new.idempotency_key) db.tasks) ≡ none
    → any (has_id new.task_id) db.tasks ≡ false
    → let balance = held new.policy new.rate_limit_now (row_of new.client_id db.rate_limits) in
      let request = Repository.create_or_replay sha256_text now clock new db in
      let again =
        Repository.create_or_replay sha256_text now' clock'
          (record new { rate_limit_now = later })
          db in
      (token ≤ balance
        → (request.0 ≡ ok (inserted sha256_text now clock new, false))
          × (request.1.tasks ≡ db.tasks ++ inserted sha256_text now clock new ∷ []))
      × (balance < token
          → (wait : ℕ) × (request ≡ (err (rate_limit_exceeded wait), db))
            × (new.rate_limit_now + wait < later
                → (again.0 ≡ ok (inserted sha256_text now' clock' new, false))
                  × (again.1.tasks ≡ db.tasks ++ inserted sha256_text now' clock' new ∷ []))
            × (new.rate_limit_now ≤ later
                → later < new.rate_limit_now + wait
                → (left : ℕ) × (again ≡ (err (rate_limit_exceeded left), db))))
create-retry sha256_text now clock now' clock' later new db some_capacity refills past free unused =
    let second = record new { rate_limit_now = later } in
    let call = consume_rate_limit new.policy new.rate_limit_now new.client_id db.rate_limits in
    let exact =
      consume-exact new.policy new.rate_limit_now new.client_id db.rate_limits some_capacity in
    let (made, refused) = creates sha256_text now clock new db free unused in
    let (made_again, refused_again) = creates sha256_text now' clock' second db free unused in
    (
      λ enough. added (made (exact ∙ leb-true enough)),
      λ short.
          let denied = exact ∙ leb-false short in
          let (allowed, early) =
            consume-again new.policy new.rate_limit_now later new.client_id db.rate_limits call.0.1
              some_capacity refills past (ap (λ b. (b, call.0.1)) denied) in
          (
            call.0.1,
            refused denied,
            λ long. added (made_again (allowed long)),
            λ on soon. (_, refused_again (early on soon)),
          ),
    )
  where
    added :
        {r : Result RepositoryError (Task × Bool) × Database} {row : Task} {limits : List RateLimit}
        → r ≡ (ok (row, false), record db { tasks = db.tasks ++ row ∷ []; rate_limits = limits })
        → (r.0 ≡ ok (row, false)) × (r.1.tasks ≡ db.tasks ++ row ∷ [])
    added e = (
      ap (λ (r : Result RepositoryError (Task × Bool) × Database). r.0) e,
      ap (λ (r : Result RepositoryError (Task × Bool) × Database). r.1.tasks) e,
    )
