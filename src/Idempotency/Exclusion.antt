-- ===== src/Idempotency/Exclusion.antt =====
-- Many requests at once: the programs of the middleware, interleaved command by command over one
-- Redis server.
pub mod Discipline
pub mod Effects
pub mod Invariant
use internal_developer_platf.Shared.{
  [], ℕ, ◌+◌, String, ◌≡◌, Bool, true, false, Option, none, some, ◌==◌, if◌then◌else◌,
}
use internal_developer_platf.Http.{Script, Writer, Ending, returned}
use internal_developer_platf.Idempotency.Redis.{
  Codec, Entry, Server, Link, lost_reply, live, transmit, exec_set_nx, exec_get, exec_complete,
  exec_release,
}
use internal_developer_platf.Idempotency.Program.{
  Program, done, local_time, set_nx, get, eval_complete, eval_release, serve_next,
}

-- One request under way. `owned` is bookkeeping: it tells that a reservation was granted to it, and
-- that it has neither completed nor released it. A handler runs while its program is at
-- `serve_next`.
pub record Process (Raw A : Type 0) : Type 0 where
  pub key : String
  pub owned : Bool
  pub program : Program Raw A

pub record Pool (Raw A : Type 0) : Type 0 where
  pub now : ℕ
  pub server : Server Raw
  pub processes : ℕ → Process Raw A

abbrev granted : Option Bool → Bool
granted (some true) = true
granted _ = false

module _ {Raw A : Type 0} (json : Codec Raw) where
  -- The next command of a process, under a link, at a time, with the answer of its handler.
  unfoldable pub act :
      Link
      → ℕ
      → ℕ
      → Script
      → Server Raw
      → String
      → Bool
      → Program Raw A
      → Server Raw × Process Raw A
  act link now clock script server key owned (done a) =
      (server, record { key = key; owned = owned; program = done a })
  act link now clock script server key owned (local_time k) =
      (server, record { key = key; owned = owned; program = k clock })
  act link now clock script server key owned (set_nx name value ttl k) =
      let (after, reply) = transmit link server (exec_set_nx now name value ttl server) in
      (
        after,
        record { key = key; owned = if granted reply then true else owned; program = k reply },
      )
  act link now clock script server key owned (get name k) =
      let (after, reply) = transmit link server (exec_get now name server) in
      (after, record { key = key; owned = owned; program = k reply })
  act link now clock script server key owned (eval_complete name value ttl k) =
      let (after, reply) = transmit link server (exec_complete now name value ttl server) in
      (after, record { key = key; owned = false; program = k reply })
  act link now clock script server key owned (eval_release name k) =
      let (after, reply) = transmit link server (exec_release json.finds_quoted now name server) in
      (after, record { key = key; owned = false; program = k reply })
  act link now clock script server key owned (serve_next request k) =
      (server, record { key = key; owned = owned; program = k script })

  unfoldable pub act_at : Link → ℕ → Script → ℕ → Pool Raw A → Pool Raw A
  unfolding act
  act_at link clock script i pool =
      let p = pool.processes i in
      let (after, p') = act link pool.now clock script pool.server p.key p.owned p.program in
      record {
        now = pool.now;
        server = after;
        processes = λ j. if j == i then p' else pool.processes j;
      }

abbrev pub is_release : {Raw A : Type 0} → Program Raw A → Bool
is_release (eval_release name k) = true
is_release _ = false

-- Whether a key stands in the store.
unfoldable pub is_taken : {Raw : Type 0} → ℕ → Server Raw → String → Bool
is_taken now server key = elim (live now (server key)) [ some _ ↦ true | none ↦ false ]

-- A command runs and its reply is lost, and the client will send it again: the process is still at
-- it. go-redis does so unless it is told otherwise, which redis.go does not.
unfoldable pub run_unanswered : {Raw A : Type 0} → Codec Raw → ℕ → Pool Raw A → Pool Raw A
unfolding act
run_unanswered json i pool =
    let p = pool.processes i in
    record pool {
      server =
          (act json lost_reply pool.now 0 (record { ops = []; ending = returned }) pool.server p.key
            p.owned p.program).0;
    }

-- A step of the pool: a process makes its next command; a command other than that of Release runs
-- and is to be sent again; or time passes, but not so much that a reservation runs out under its
-- owner.
pub data Step {Raw A : Type 0} (json : Codec Raw) : Pool Raw A → Pool Raw A → Type 0 where
  command :
      (link : Link) (clock : ℕ) (script : Script) (i : ℕ) (pool : Pool Raw A)
      → Step json pool (act_at json link clock script i pool)
  unanswered :
      (i : ℕ) (pool : Pool Raw A)
      → is_release (pool.processes i).program ≡ false
      → Step json pool (run_unanswered json i pool)
  wait :
      (time : ℕ) (pool : Pool Raw A)
      → ((i : ℕ)
          → (pool.processes i).owned ≡ true
          → is_taken (pool.now + time) pool.server (pool.processes i).key ≡ true)
      → Step json pool (record pool { now = pool.now + time })

pub data Reach {Raw A : Type 0} (json : Codec Raw) (start : Pool Raw A) : Pool Raw A → Type 0 where
  here : Reach json start start
  next :
      {pool later : Pool Raw A}
      → Reach json start pool
      → Step json pool later
      → Reach json start later
