-- ===== src/ResumeCloud/RateLimit/Retry.antt =====
-- What a refused client is told: after how long to try again.
use soloscale_ai_os.Prelude.{
  ℕ, ◌+◌, ◌-◌, ◌*◌, ◌/◌, ◌≤◌, ◌<◌, ◌≡◌, refl, ap, sym, ◌∙◌, Bool, true, false, Option, none, some,
  List, String, leb, arith,
}
use soloscale_ai_os.ResumeCloud.Models.{RateLimit}
use soloscale_ai_os.ResumeCloud.RateLimit.{
  token, RatePolicy, available, spend, verdict, row_of, consume_rate_limit,
}
use soloscale_ai_os.ResumeCloud.RateLimit.Found.{
  fresh, or_fresh, bucket, row_of-consume, consume_lem,
}
use soloscale_ai_os.ResumeCloud.RateLimit.Refill.{waited, early}
use soloscale_ai_os.ResumeCloud.RateLimit.Refusal.{
  IsPast, row_of-IsPast, bucket-IsPast, refused_lem, allowed_lem, again_available, leb-true,
  leb-false,
}

after_refusal :
    (policy : RatePolicy) (now later : ℕ) (client_id : String) (rows after : List RateLimit)
    (wait : ℕ)
    → 1 ≤ policy.capacity
    → 0 < policy.refill_per_second
    → IsPast now rows
    → consume_rate_limit policy now client_id rows ≡ ((false, wait), after)
    → (now + wait < later → (consume_rate_limit policy later client_id after).0.0 ≡ true)
      × (now ≤ later
          → later < now + wait
          → (consume_rate_limit policy later client_id after).0.0 ≡ false)
after_refusal policy now later client_id rows after wait some_capacity refills past h =
    let row = bucket policy now client_id rows in
    let next = spend policy now row in
    let (short, tokens, updated, told) =
      refused_lem policy now row wait (bucket-IsPast policy now client_id rows past) (
        sym (consume_lem policy now client_id rows)
        ∙ ap (λ (r : (Bool × ℕ) × List RateLimit). r.0) h) in
    let stored : row_of client_id after ≡ some next =
      ap (λ (r : (Bool × ℕ) × List RateLimit). row_of client_id r.1) (sym h)
      ∙ row_of-consume policy now client_id rows in
    let again : (consume_rate_limit policy later client_id after).0.0
        ≡ leb token (available policy later next) =
      ap (λ (v : Bool × ℕ). v.0) (consume_lem policy later client_id after)
      ∙ ap (λ o. (spend policy later (or_fresh policy later client_id o)).last_allowed) stored
      ∙ allowed_lem policy later next in
    let now_there : available policy now next ≡ available policy now row =
      again_available policy now row tokens updated in
    let same_wait : wait ≡ (token - available policy now next) / policy.refill_per_second =
      told ∙ ap (λ t. (token - t) / policy.refill_per_second) (sym now_there) in
    (
      λ long.
          again
          ∙ leb-true (
              waited policy now later next (omega (arith, updated)) some_capacity refills
                (omega (arith, short, now_there)) (omega (arith, long, same_wait))),
      λ on soon.
          again
          ∙ leb-false (
              early policy now later next (omega (arith, updated)) some_capacity refills
                (omega (arith, short, now_there)) on (omega (arith, soon, same_wait))),
    )

fresh_full :
    (policy : RatePolicy) (now : ℕ) (client_id : String)
    → 1 ≤ policy.capacity
    → token ≤ available policy now (fresh policy now client_id)
unfolding available
fresh_full policy now client_id some_capacity = ground arith

-- The same call on the same rows, as where the first has been rolled back.
pub consume-again :
    (policy : RatePolicy) (now later : ℕ) (client_id : String) (rows : List RateLimit) (wait : ℕ)
    → 1 ≤ policy.capacity
    → 0 < policy.refill_per_second
    → IsPast now rows
    → (consume_rate_limit policy now client_id rows).0 ≡ (false, wait)
    → (now + wait < later → (consume_rate_limit policy later client_id rows).0.0 ≡ true)
      × (now ≤ later
          → later < now + wait
          → (consume_rate_limit policy later client_id rows).0.0 ≡ false)
consume-again policy now later client_id rows wait some_capacity refills past h =
    at (row_of client_id rows) refl
  where
    at :
        (o : Option RateLimit)
        → row_of client_id rows ≡ o
        → (now + wait < later → (consume_rate_limit policy later client_id rows).0.0 ≡ true)
          × (now ≤ later
              → later < now + wait
              → (consume_rate_limit policy later client_id rows).0.0 ≡ false)
    at none e =
        let (short, tokens, updated, told) =
          refused_lem policy now (fresh policy now client_id) wait (omega arith) (
            ap (λ o. verdict policy (some (spend policy now (or_fresh policy now client_id o))))
              (sym e)
            ∙ sym (consume_lem policy now client_id rows)
            ∙ h) in
        absurd (omega (arith, short, fresh_full policy now client_id some_capacity))
    at (some row) e =
        let recorded = row_of-IsPast now client_id rows row past e in
        let (short, tokens, updated, told) = refused_lem policy now row wait recorded (
          ap (λ o. verdict policy (some (spend policy now (or_fresh policy now client_id o))))
            (sym e)
          ∙ sym (consume_lem policy now client_id rows)
          ∙ h) in
        let again : (consume_rate_limit policy later client_id rows).0.0
            ≡ leb token (available policy later row) =
          ap (λ (v : Bool × ℕ). v.0) (consume_lem policy later client_id rows)
          ∙ ap (λ o. (spend policy later (or_fresh policy later client_id o)).last_allowed) e
          ∙ allowed_lem policy later row in
        (
          λ long.
              again
              ∙ leb-true (
                  waited policy now later row recorded some_capacity refills short
                    (omega (arith, long, told))),
          λ on soon.
              again
              ∙ leb-false (
                  early policy now later row recorded some_capacity refills short on
                    (omega (arith, soon, told))),
        )

-- what a client holds at an instant: the tokens of its row and what has been refilled since, and the whole
-- capacity where there is no row yet
abbrev pub held : RatePolicy → ℕ → Option RateLimit → ℕ
held policy now none = policy.capacity * token
held policy now (some row) = row.tokens + (now - row.updated_at) * policy.refill_per_second

held_lem :
    (policy : RatePolicy) (now : ℕ) (client_id : String) (o : Option RateLimit)
    → 1 ≤ policy.capacity
    → leb token (available policy now (or_fresh policy now client_id o))
      ≡ leb token (held policy now o)
unfolding available
held_lem policy now client_id none some_capacity = ground arith
held_lem policy now client_id (some row) some_capacity = ground arith

pub consume-exact :
    (policy : RatePolicy) (now : ℕ) (client_id : String) (rows : List RateLimit)
    → 1 ≤ policy.capacity
    → (consume_rate_limit policy now client_id rows).0.0
      ≡ leb token (held policy now (row_of client_id rows))
consume-exact policy now client_id rows some_capacity =
    ap (λ (v : Bool × ℕ). v.0) (consume_lem policy now client_id rows)
    ∙ allowed_lem policy now (bucket policy now client_id rows)
    ∙ held_lem policy now client_id (row_of client_id rows) some_capacity

-- With a bucket that can hold a token and is refilled, and no instant recorded that is later than the
-- call: a call is allowed exactly when what the client holds makes a whole token. After a refused one
-- the client's next call is allowed if it comes later than the wait that it was told, and refused if it
-- comes earlier.
pub consume-retry :
    (policy : RatePolicy) (now later : ℕ) (client_id : String) (rows : List RateLimit)
    → 1 ≤ policy.capacity
    → 0 < policy.refill_per_second
    → IsPast now rows
    → let ((allowed, wait), after) = consume_rate_limit policy now client_id rows in
      (allowed ≡ leb token (held policy now (row_of client_id rows)))
      × (held policy now (row_of client_id rows) < token
          → (now + wait < later → (consume_rate_limit policy later client_id after).0.0 ≡ true)
            × (now ≤ later
                → later < now + wait
                → (consume_rate_limit policy later client_id after).0.0 ≡ false))
consume-retry policy now later client_id rows some_capacity refills past =
    let call = consume_rate_limit policy now client_id rows in
    let exact = consume-exact policy now client_id rows some_capacity in
    (
      exact,
      λ short.
          after_refusal policy now later client_id rows call.1 call.0.1 some_capacity refills past
            (ap (λ b. ((b, call.0.1), call.1)) (exact ∙ leb-false short)),
    )
