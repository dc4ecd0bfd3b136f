-- ===== src/ResumeCloud/Repository/Cache.antt =====
-- The result cache: what a lookup may answer with, and what a store may replace.
use soloscale_ai_os.Prelude.{
  ℕ, ◌≡◌, ◌≢◌, refl, sym, subst, Bool, true, false, ◌&&◌, ◌<◌, Option, none, some, List, [], ◌∷◌,
  ◌++◌, any, filter_by, ltb, leb, str_eq_refl, str_eq_iff, arith, Bool-cases, inl, inr,
  if◌then◌else◌,
}
use soloscale_ai_os.ResumeCloud.Models.{ResultCacheKey, key_eq, CachedResult}
use soloscale_ai_os.ResumeCloud.Table.{update_where, first}
use soloscale_ai_os.ResumeCloud.Repository.Rows.{update_where-none}
use soloscale_ai_os.ResumeCloud.Repository.{cached, store_result}

key_eq_sound : (a b : ResultCacheKey) → key_eq a b ≡ true → a ≡ b
unfolding key_eq
key_eq_sound a b h = ground (
  arith,
  str_eq_iff a.client_key b.client_key,
  str_eq_iff a.raw_resume_sha256 b.raw_resume_sha256,
  str_eq_iff a.job_description_sha256 b.job_description_sha256,
  str_eq_iff a.mode b.mode,
  str_eq_iff a.provider b.provider,
  str_eq_iff a.model b.model,
  str_eq_iff a.base_url_sha256 b.base_url_sha256,
  str_eq_iff a.pipeline_sha256 b.pipeline_sha256,
)

first-filter_by :
    (p : CachedResult → Bool) (cs : List CachedResult) (c : CachedResult)
    → first (filter_by p cs) ≡ some c
    → p c ≡ true
first-filter_by p [] c h = cc
first-filter_by p (x ∷ xs) c h = elim (Bool-cases (p x)) [
  | inl met ↦ let here : x ≡ c = ground arith in subst (λ y. p y ≡ true) here met
  | inr other ↦ first-filter_by p xs c (ground arith)
]

-- A lookup answers for its own key in all eight parts, client included, and with a result that has
-- not expired.
pub cached_lem :
    (now : ℕ) (key : ResultCacheKey) (cache : List CachedResult) (c : CachedResult)
    → cached now key cache ≡ some c
    → (c.key ≡ key) × (now < c.output_expires_at)
unfolding cached
cached_lem now key cache c h =
    let met = first-filter_by (λ x. key_eq x.key key && ltb now x.output_expires_at) cache c h in
    (key_eq_sound c.key key (ground arith), ground arith)

key_eq_refl : (a : ResultCacheKey) → key_eq a a ≡ true
unfolding key_eq
key_eq_refl a = simp str_eq_refl

-- the primary key of the cache
abbrev pub UniqueKeys : List CachedResult → Type 0
UniqueKeys [] = Unit
UniqueKeys (c ∷ cs) = (any (λ d. key_eq d.key c.key) cs ≡ false) × UniqueKeys cs

abbrev fresh : ℕ → ResultCacheKey → CachedResult → Bool
fresh now key c = key_eq c.key key && ltb now c.output_expires_at

-- the rows that a store replaces
abbrev stale : ℕ → ResultCacheKey → CachedResult → Bool
stale now key c = key_eq c.key key && leb c.output_expires_at now

-- what a lookup finds after a store under its key, from what it found before
abbrev pub after_store : ℕ → CachedResult → Option CachedResult → Option CachedResult
after_store now new (some c) = some c
after_store now new none = if ltb now new.output_expires_at then some new else none

none-fresh :
    (now : ℕ) (key : ResultCacheKey) (cs : List CachedResult)
    → any (λ c. key_eq c.key key) cs ≡ false
    → first (filter_by (fresh now key) cs) ≡ none
none-fresh now key [] h = refl
none-fresh now key (c ∷ cs) h = ground (arith, none-fresh now key cs)

no_stale :
    (now : ℕ) (key : ResultCacheKey) (cs : List CachedResult)
    → any (λ c. key_eq c.key key) cs ≡ false
    → any (stale now key) cs ≡ false
no_stale now key [] h = refl
no_stale now key (c ∷ cs) h = ground (arith, no_stale now key cs)

store_new :
    (now : ℕ) (new : CachedResult) (cs : List CachedResult)
    → any (λ c. key_eq c.key new.key) cs ≡ false
    → first (filter_by (fresh now new.key) (cs ++ new ∷ [])) ≡ after_store now new none
store_new now new [] h = ground (arith, key_eq_refl new.key)
store_new now new (c ∷ cs) h = ground (arith, store_new now new cs)

store_over :
    (now : ℕ) (new : CachedResult) (cs : List CachedResult)
    → UniqueKeys cs
    → any (λ c. key_eq c.key new.key) cs ≡ true
    → first (filter_by (fresh now new.key) (update_where (stale now new.key) (λ c. new) cs))
      ≡ after_store now new (first (filter_by (fresh now new.key) cs))
store_over now new [] u h = cc
store_over now new (c ∷ cs) (alone, us) h = elim (Bool-cases (key_eq c.key new.key)) [
  | inl own ↦
      let no_other : any (λ d. key_eq d.key new.key) cs ≡ false =
        subst (λ k. any (λ d. key_eq d.key k) cs ≡ false) (key_eq_sound c.key new.key own) alone in
      ground (
        arith,
        key_eq_refl new.key,
        none-fresh now new.key cs no_other,
        update_where-none (stale now new.key) (λ d. new) cs (no_stale now new.key cs no_other),
      )
  | inr foreign ↦ ground (arith, store_over now new cs us)
]

-- A lookup under the stored key finds what it found before, if that is still fresh, and else the new
-- result unless that has expired already.
pub cached-store_result :
    (now : ℕ) (new : CachedResult) (cache : List CachedResult)
    → UniqueKeys cache
    → cached now new.key (store_result now new cache)
      ≡ after_store now new (cached now new.key cache)
unfolding cached store_result
cached-store_result now new cache u = elim (Bool-cases (any (λ c. key_eq c.key new.key) cache)) [
  | inl known ↦ rw known (store_over now new cache u known)
  | inr unknown ↦
      rw (unknown, none-fresh now new.key cache unknown) (store_new now new cache unknown)
]

other_over :
    (now : ℕ) (new : CachedResult) (key : ResultCacheKey) (cs : List CachedResult)
    → key_eq new.key key ≡ false
    → first (filter_by (fresh now key) (update_where (stale now new.key) (λ c. new) cs))
      ≡ first (filter_by (fresh now key) cs)
other_over now new key [] h = refl
other_over now new key (c ∷ cs) h = elim (Bool-cases (key_eq c.key new.key)) [
  | inl own ↦
      let foreign : key_eq c.key key ≡ false =
        subst (λ k. key_eq k key ≡ false) (sym (key_eq_sound c.key new.key own)) h in
      ground (arith, other_over now new key cs h)
  | inr foreign ↦ ground (arith, other_over now new key cs h)
]

other_new :
    (now : ℕ) (new : CachedResult) (key : ResultCacheKey) (cs : List CachedResult)
    → key_eq new.key key ≡ false
    → first (filter_by (fresh now key) (cs ++ new ∷ [])) ≡ first (filter_by (fresh now key) cs)
other_new now new key [] h = ground arith
other_new now new key (c ∷ cs) h = ground (arith, other_new now new key cs)

-- A lookup under any other key, another client's among them, finds what it found before.
pub cached-store_result_ne :
    (now : ℕ) (new : CachedResult) (key : ResultCacheKey) (cache : List CachedResult)
    → new.key ≢ key
    → cached now key (store_result now new cache) ≡ cached now key cache
unfolding cached store_result
cached-store_result_ne now new key cache ne =
    let foreign = not_eq new.key key ne in
    elim (Bool-cases (any (λ c. key_eq c.key new.key) cache)) [
      | inl known ↦ rw known (other_over now new key cache foreign)
      | inr unknown ↦ rw unknown (other_new now new key cache foreign)
    ]
  where
    not_eq : (a b : ResultCacheKey) → a ≢ b → key_eq a b ≡ false
    not_eq a b ne = elim (Bool-cases (key_eq a b)) [
      | inl same ↦ absurd (ne (key_eq_sound a b same))
      | inr other ↦ other
    ]
