-- ===== src/Idempotency/Expiry/Recovery.antt =====
-- idempotency_middleware.go and redis_store.go: after any failure, a key comes free by itself.
use internal_developer_platf.Shared.{
  ℕ, ◌+◌, ◌≤◌, ◌<◌, String, ◌≡◌, refl, false, ◌≢◌, Option, none, some, List, [], ◌∷◌, arith,
}
use internal_developer_platf.Http.{Request, Script, Writer, Ending, returned, apply_ops}
use internal_developer_platf.Idempotency.Redis.{
  Codec, CodecLaws, Entry, Server, healthy, live, is_live, year_10000,
}
use internal_developer_platf.Idempotency.Program.{Conditions, run}
use internal_developer_platf.Idempotency.Store.{redis_store, prefixed}
use internal_developer_platf.Idempotency.Middleware.{Platform, idempotency_middleware}
use internal_developer_platf.Idempotency.Middleware.Once.{IsKeyed}
use internal_developer_platf.Idempotency.Middleware.Retry.{
  IsFresh, IsCacheable, RepeatsAnswer, retry_is_replayed,
}
use internal_developer_platf.Idempotency.Contract.Calls.{at_server}
use internal_developer_platf.Idempotency.Exclusion.{Pool}
use internal_developer_platf.Idempotency.Exclusion.Invariant.{arrivals}
use internal_developer_platf.Idempotency.Expiry.{
  AnyReach, EndsBy, EntryEndsBy, AllEndBy, entries_end,
}

EndsBy-over :
    (limit now : ℕ) (expires : Option ℕ)
    → limit ≤ now
    → EndsBy limit expires
    → is_live now expires ≡ false
unfolding is_live
EndsBy-over limit now none le h = elim h [ ]
EndsBy-over limit now (some expires) le h = ground arith

EntryEndsBy-live :
    {Raw : Type 0} (limit now : ℕ) (entry : Option (Entry Raw))
    → limit ≤ now
    → EntryEndsBy limit entry
    → live now entry ≡ none
unfolding live
EntryEndsBy-live limit now none le h = refl
EntryEndsBy-live limit now (some entry) le h = rw (EndsBy-over limit now entry.expires le h) refl

module _ (platform : Platform) {Raw : Type 0} (json : Codec Raw) (laws : CodecLaws json) (ttl : ℕ)
    (conditions : ℕ → Conditions) (next : Request → Script)
    (healthy_link : (n : ℕ) → (conditions n).link ≡ healthy)
    (dates : (n : ℕ) → (conditions n).local_time + ttl < year_10000) (base : ℕ)
    (window : (n : ℕ)
      → (base ≤ (conditions n).server_time) × ((conditions n).server_time < base + ttl))
    (ttl_pos : ttl ≢ 0) (requests : ℕ → Request) (outs : ℕ → Writer) (keys : ℕ → String) (now : ℕ)
    (server : Server Raw) (bounded : AllEndBy (now + ttl) server)
    (pool : Pool Raw (Writer × Ending))
    (reached : AnyReach json (arrivals platform json ttl requests outs keys now server) pool) where
  -- From whatever moment any number of requests have reached, with commands and replies lost,
  -- commands run again whose reply was lost and requests that have stopped at any command, over a store in which every record ended at most one
  -- time to live after the start: once one time to live has passed since with no command, a request
  -- and its repetition with the same key and body, all of whose commands arrive within one time to
  -- live, are served as on a free key. Where the time to live is not 0, the dates can be written, and
  -- the handler returns with a status from 200 to 499, it runs once for the two, the first answer is
  -- the handler's, and the second repeats it.
  pub abandoned_keys_recover :
      (request repeated : Request) (out again_out : Writer) (key : String) (body : List ℕ)
      → pool.now + ttl ≤ base
      → IsKeyed platform request key body
      → IsKeyed platform repeated key body
      → IsFresh out
      → IsFresh again_out
      → IsCacheable out (next request)
      → let w = at_server pool.server in
        let send = idempotency_middleware platform (redis_store json) ttl in
        let (first, w₁) = run json conditions next (send request out) w in
        let (second, w₂) = run json conditions next (send repeated again_out) w₁ in
        (first ≡ (apply_ops out (next request).ops, returned))
        × RepeatsAnswer (apply_ops out (next request).ops) second.0
        × (second.1 ≡ returned)
        × (w₂.served ≡ request ∷ [])
  abandoned_keys_recover request repeated out again_out key body passed keyed again fresh
        again_fresh cacheable =
      retry_is_replayed platform json laws ttl conditions next healthy_link dates base window
        ttl_pos request repeated out again_out key body (at_server pool.server) keyed again fresh
        again_fresh cacheable
        (EntryEndsBy-live (pool.now + ttl) (conditions 0).server_time (pool.server (prefixed key))
          (omega (arith, window 0))
          (entries_end platform json ttl requests outs keys now server pool ttl_pos bounded reached
            (prefixed key)))
