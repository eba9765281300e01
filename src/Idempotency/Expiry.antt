-- ===== src/Idempotency/Expiry.antt =====
-- idempotency_middleware.go and redis_store.go: how long a record can stand. Requests may stop at any
-- command, replies may be lost and handlers may outlast their reservations.
pub mod Recovery
use internal_developer_platf.Shared.{
  [], ℕ, ◌+◌, ◌≤◌, String, ◌≡◌, refl, ◌≢◌, Bool, true, false, Option, none, some, arith, str_eq,
  Bool-cases, Option-cases, inl, inr, ltb, if◌then◌else◌, ◌==◌,
}
use native.Mathlib.Nat.{le_refl}
use internal_developer_platf.Http.{Request, Script, Writer, Ending, returned}
use internal_developer_platf.Idempotency.Record.{state_in_flight}
use internal_developer_platf.Idempotency.Redis.{
  Codec, Entry, Server, Link, healthy, lost_request, lost_reply, live, is_live, update, transmit,
  exec_set_nx, exec_get, exec_complete, exec_release,
}
use internal_developer_platf.Idempotency.Program.{
  Program, done, local_time, set_nx, get, eval_complete, eval_release, serve_next,
}
use internal_developer_platf.Idempotency.Store.Lifetimes.{AsksFor}
use internal_developer_platf.Idempotency.Middleware.{Platform}
use internal_developer_platf.Idempotency.Middleware.Lifetimes.{idempotency_middleware-AsksFor}
use internal_developer_platf.Idempotency.Exclusion.{Process, Pool, act, act_at, run_unanswered}
use internal_developer_platf.Idempotency.Exclusion.Invariant.{arrivals}

-- A step of the pool with no condition: a process makes its next command, a command runs and is to be
-- sent again, or any time passes.
pub data AnyStep {Raw A : Type 0} (json : Codec Raw) : Pool Raw A → Pool Raw A → Type 0 where
  command :
      (link : Link) (clock : ℕ) (script : Script) (i : ℕ) (pool : Pool Raw A)
      → AnyStep json pool (act_at json link clock script i pool)
  unanswered : (i : ℕ) (pool : Pool Raw A) → AnyStep json pool (run_unanswered json i pool)
  wait : (time : ℕ) (pool : Pool Raw A) → AnyStep json pool (record pool { now = pool.now + time })

pub data AnyReach {Raw A : Type 0} (json : Codec Raw) (start : Pool Raw A)
    : Pool Raw A → Type 0 where
  here : AnyReach json start start
  next :
      {pool later : Pool Raw A}
      → AnyReach json start pool
      → AnyStep json pool later
      → AnyReach json start later

-- An entry has an end, at most one time to live from now.
abbrev pub EndsBy : ℕ → Option ℕ → Type 0
EndsBy limit none = ⊥
EndsBy limit (some expires) = expires ≤ limit

abbrev pub EntryEndsBy : {Raw : Type 0} → ℕ → Option (Entry Raw) → Type 0
EntryEndsBy limit none = Unit
EntryEndsBy limit (some entry) = EndsBy limit entry.expires

abbrev pub AllEndBy : {Raw : Type 0} → ℕ → Server Raw → Type 0
AllEndBy limit server = (name : String) → EntryEndsBy limit (server name)

module _ {Raw : Type 0} (limit : ℕ) (server : Server Raw) (bounded : AllEndBy limit server)
    (name : String) where
  update-AllEndBy :
      (entry : Option (Entry Raw))
      → EntryEndsBy limit entry
      → AllEndBy limit (update server name entry)
  unfolding update
  update-AllEndBy entry ends other = elim (Bool-cases (str_eq other name)) [
    | inl same ↦ rw same ends
    | inr differs ↦ rw differs (bounded other)
  ]

  transmit-AllEndBy :
      {Answer : Type 0} (link : Link) (after : Server Raw × Option Answer)
      → AllEndBy limit after.0
      → AllEndBy limit (transmit link server after).0
  unfolding transmit
  transmit-AllEndBy healthy after h = h
  transmit-AllEndBy lost_request after h = bounded
  transmit-AllEndBy lost_reply after h = h

module _ {Raw : Type 0} (now ttl : ℕ) (pos : ttl ≢ 0) (server : Server Raw)
    (bounded : AllEndBy (now + ttl) server) (name : String) where
  ttl_is_set : (ttl == 0) ≡ false
  ttl_is_set = ground arith

  set_nx-AllEndBy : (value : Raw) → AllEndBy (now + ttl) (exec_set_nx now name value ttl server).0
  unfolding exec_set_nx
  set_nx-AllEndBy value = elim (Option-cases (live now (server name))) [
    | inl free ↦
        rw (free, exec_set_nx)
          (update-AllEndBy (now + ttl) server bounded name _ (rw ttl_is_set (le_refl (now + ttl))))
    | inr (entry, taken) ↦ rw (taken, exec_set_nx) bounded
  ]

  complete-AllEndBy :
      (value : Raw) → AllEndBy (now + ttl) (exec_complete now name value ttl server).0
  unfolding exec_complete
  complete-AllEndBy value = elim (Option-cases (live now (server name))) [
    | inl gone ↦ rw (gone, exec_complete) bounded
    | inr (entry, there) ↦
        rw (there, exec_complete, ttl_is_set)
          (update-AllEndBy (now + ttl) server bounded name _ (le_refl (now + ttl)))
  ]

  release-AllEndBy :
      (finds_quoted : Raw → String → Bool)
      → AllEndBy (now + ttl) (exec_release finds_quoted now name server).0
  unfolding exec_release
  release-AllEndBy finds_quoted = elim (Option-cases (live now (server name))) [
    | inl gone ↦ rw (gone, exec_release) bounded
    | inr (entry, there) ↦
        rw (there, exec_release)
          (elim (Bool-cases (finds_quoted entry.value state_in_flight)) [
            | inl flying ↦ rw flying (update-AllEndBy (now + ttl) server bounded name none tt)
            | inr other ↦ rw other bounded
          ])
  ]

  get-AllEndBy : AllEndBy (now + ttl) (exec_get now name server).0
  unfolding exec_get
  get-AllEndBy = elim (Option-cases (live now (server name))) [
    | inl gone ↦ rw (gone, exec_get) bounded
    | inr (entry, there) ↦ rw (there, exec_get) bounded
  ]

-- Every entry ends within one time to live, and what the processes still write will too.
record IsBounded {Raw A : Type 0} (ttl : ℕ) (pool : Pool Raw A) : Type 0 where
  entries : AllEndBy (pool.now + ttl) pool.server
  programs : (i : ℕ) → AsksFor ttl (pool.processes i).program

module _ {Raw A : Type 0} (json : Codec Raw) (link : Link) (now ttl clock : ℕ) (pos : ttl ≢ 0)
    (script : Script) (server : Server Raw) (bounded : AllEndBy (now + ttl) server) (key : String)
    (owned : Bool) where
  act-IsBounded :
      (program : Program Raw A)
      → AsksFor ttl program
      → let (after, p) = act json link now clock script server key owned program in
        AllEndBy (now + ttl) after × AsksFor ttl p.program
  unfolding act
  act-IsBounded (done a) asks = (bounded, tt)
  act-IsBounded (local_time k) asks = (bounded, asks clock)
  act-IsBounded (set_nx name value t k) (e, asks) = (
    transmit-AllEndBy (now + ttl) server bounded name link _
        (rw e (set_nx-AllEndBy now ttl pos server bounded name value)),
    asks _,
  )
  act-IsBounded (get name k) asks = (
    transmit-AllEndBy (now + ttl) server bounded name link _
        (get-AllEndBy now ttl pos server bounded name),
    asks _,
  )
  act-IsBounded (eval_complete name value t k) (e, asks) = (
    transmit-AllEndBy (now + ttl) server bounded name link _
        (rw e (complete-AllEndBy now ttl pos server bounded name value)),
    asks _,
  )
  act-IsBounded (eval_release name k) asks = (
    transmit-AllEndBy (now + ttl) server bounded name link _
        (release-AllEndBy now ttl pos server bounded name json.finds_quoted),
    asks _,
  )
  act-IsBounded (serve_next request k) asks = (bounded, asks script)

EndsBy-mono :
    (soon late : ℕ) (expires : Option ℕ) → soon ≤ late → EndsBy soon expires → EndsBy late expires
EndsBy-mono soon late none le h = elim h [ ]
EndsBy-mono soon late (some expires) le h = omega arith

EntryEndsBy-mono :
    {Raw : Type 0} (soon late : ℕ) (entry : Option (Entry Raw))
    → soon ≤ late
    → EntryEndsBy soon entry
    → EntryEndsBy late entry
EntryEndsBy-mono soon late none le h = tt
EntryEndsBy-mono soon late (some entry) le h = EndsBy-mono soon late entry.expires le h

AnyStep-IsBounded :
    {Raw A : Type 0} (json : Codec Raw) (ttl : ℕ) {pool later : Pool Raw A}
    → ttl ≢ 0
    → AnyStep json pool later
    → IsBounded ttl pool
    → IsBounded ttl later
unfolding act_at run_unanswered
AnyStep-IsBounded json ttl pos (command link clock script i pool) h =
    let p = pool.processes i in
    let (entries, asks) =
      act-IsBounded json link pool.now ttl clock pos script pool.server h.entries p.key p.owned
        p.program (h.programs i) in
    record {
      entries = entries;
      programs = λ j. elim (Bool-cases (j == i)) [
        | inl same ↦ rw same asks
        | inr other ↦ rw other (h.programs j)
      ];
    }
AnyStep-IsBounded json ttl pos (unanswered i pool) h =
    let p = pool.processes i in
    record {
      entries =
          (act-IsBounded json lost_reply pool.now ttl 0 pos (record { ops = []; ending = returned })
            pool.server h.entries p.key p.owned p.program (h.programs i)).0;
      programs = h.programs;
    }
AnyStep-IsBounded json ttl pos (wait time pool) h = record {
  entries = λ name.
      EntryEndsBy-mono (pool.now + ttl) (pool.now + time + ttl) (pool.server name) (omega arith)
        (h.entries name);
  programs = h.programs;
}

AnyReach-IsBounded :
    {Raw A : Type 0} (json : Codec Raw) (ttl : ℕ) {start pool : Pool Raw A}
    → ttl ≢ 0
    → AnyReach json start pool
    → IsBounded ttl start
    → IsBounded ttl pool
AnyReach-IsBounded json ttl pos here h = h
AnyReach-IsBounded json ttl pos (next reached step) h =
    AnyStep-IsBounded json ttl pos step (AnyReach-IsBounded json ttl pos reached h)

-- Whatever requests come in, interleaved command by command, with commands and replies lost at will,
-- commands run again whose reply was lost, requests that stop at any command and handlers that take any time: where each entry of the store
-- had an end at most one time to live ahead, that is not 0, each entry has one at every later moment.
pub entries_end :
    (platform : Platform) {Raw : Type 0} (json : Codec Raw) (ttl : ℕ) (requests : ℕ → Request)
    (outs : ℕ → Writer) (keys : ℕ → String) (now : ℕ) (server : Server Raw)
    (pool : Pool Raw (Writer × Ending))
    → ttl ≢ 0
    → AllEndBy (now + ttl) server
    → AnyReach json (arrivals platform json ttl requests outs keys now server) pool
    → AllEndBy (pool.now + ttl) pool.server
entries_end platform json ttl requests outs keys now server pool pos bounded reached =
    let h = AnyReach-IsBounded json ttl pos reached (record {
      entries = bounded;
      programs = λ i. idempotency_middleware-AsksFor platform json ttl (requests i) (outs i);
    }) in
    h.entries
