-- ===== src/Idempotency/Exclusion/Invariant.antt =====
-- Of the processes that work on one key, at most one runs its handler at a time.
use internal_developer_platf.Shared.{
  [], ℕ, String, ◌≡◌, refl, sym, ◌∙◌, ◌≢◌, Bool, true, false, arith, ◌==◌, List, Bool-cases, inl,
  inr, str_eq, str_eq_iff,
}
use internal_developer_platf.Http.{Request, Script, Writer, Ending, returned}
use internal_developer_platf.Idempotency.Redis.{Codec, Server, Link, lost_reply}
use internal_developer_platf.Idempotency.Program.{
  Program, done, local_time, set_nx, get, eval_complete, eval_release, serve_next,
}
use internal_developer_platf.Idempotency.Store.{redis_store, prefixed}
use internal_developer_platf.Idempotency.Middleware.{Platform, idempotency_middleware}
use internal_developer_platf.Idempotency.Middleware.Once.{IsKeyed}
use internal_developer_platf.Idempotency.Exclusion.{
  Process, Pool, act, act_at, is_taken, Step, command, unanswered, run_unanswered, wait, Reach,
  here, next,
}
use internal_developer_platf.Idempotency.Exclusion.Discipline.{
  Disciplined, idempotency_middleware-Disciplined,
}
use internal_developer_platf.Idempotency.Exclusion.Effects.{Effect, act-Effect, unanswered-keeps}

-- Between two commands: every process keeps to the discipline, a key whose reservation some process
-- owns is taken, and it has one owner.
pub record IsExclusive {Raw A : Type 0} (pool : Pool Raw A) : Type 0 where
  pub disciplined :
      (i : ℕ)
      → Disciplined (pool.processes i).key (pool.processes i).owned (pool.processes i).program
  pub held :
      (i : ℕ)
      → (pool.processes i).owned ≡ true
      → is_taken pool.now pool.server (pool.processes i).key ≡ true
  pub unique :
      (i j : ℕ)
      → (pool.processes i).owned ≡ true
      → (pool.processes j).owned ≡ true
      → (pool.processes i).key ≡ (pool.processes j).key
      → i ≡ j

-- The process that has made a command, among the others.
module _ {Raw A : Type 0} (pool : Pool Raw A) (h : IsExclusive pool) (i : ℕ) (after : Server Raw)
    (p : Process Raw A)
    (effect : Effect pool.now
      (pool.processes i).key
      (pool.processes i).owned
      pool.server
      after
      p) where
  sole_owner :
      (j : ℕ)
      → p.owned ≡ true
      → (pool.processes j).owned ≡ true
      → (pool.processes i).key ≡ (pool.processes j).key
      → i ≡ j
  sole_owner j mine yours same = elim (Bool-cases (pool.processes i).owned) [
    | inl old ↦ h.unique i j old yours same
    | inr new ↦
        let free : is_taken pool.now pool.server (pool.processes j).key ≡ false =
          rw (← same) (effect.fresh mine new) in
        cc (h.held j yours, free)
  ]

  still_taken :
      (j : ℕ)
      → i ≢ j
      → (pool.processes j).owned ≡ true
      → is_taken pool.now after (pool.processes j).key ≡ true
  still_taken j ne yours =
      elim (Bool-cases (str_eq (pool.processes i).key (pool.processes j).key)) [
        | inl equal ↦
            let same = (str_eq_iff (pool.processes i).key (pool.processes j).key).0 equal in
            elim (Bool-cases (pool.processes i).owned) [
              | inl old ↦ absurd (ne (h.unique i j old yours same))
              | inr new ↦ rw (← same) (effect.kept new (rw same (h.held j yours)))
            ]
        | inr other ↦
            effect.others (pool.processes j).key
              (λ e. ground (arith, str_eq_iff (pool.processes i).key (pool.processes j).key))
              (h.held j yours)
      ]

different : (i j : ℕ) → (j == i) ≡ false → i ≢ j
different i j e = ground arith

equal_index : (i j : ℕ) → (j == i) ≡ true → i ≡ j
equal_index i j e = ground arith

module _ {Raw A : Type 0} (json : Codec Raw) where
  act_at-IsExclusive :
      (link : Link) (clock : ℕ) (script : Script) (i : ℕ) (pool : Pool Raw A)
      → IsExclusive pool
      → IsExclusive (act_at json link clock script i pool)
  unfolding act_at
  act_at-IsExclusive link clock script i pool h =
      let p = pool.processes i in
      let (after, p') = act json link pool.now clock script pool.server p.key p.owned p.program in
      let effect : Effect pool.now p.key p.owned pool.server after p' =
        act-Effect json link pool.now clock script pool.server p.key p.owned p.program
          (h.disciplined i) in
      let owner = sole_owner pool h i after p' effect in
      record {
        disciplined = λ j. elim (Bool-cases (j == i)) [
          | inl same ↦ rw same (rw effect.same_key effect.disciplined)
          | inr other ↦ rw other (h.disciplined j)
        ];
        held = λ j mine. elim (Bool-cases (j == i)) [
          | inl same ↦ rw same (rw effect.same_key (effect.held (rw same at mine) (h.held i)))
          | inr other ↦
              rw other
                (still_taken pool h i after p' effect j (different i j other) (rw other at mine))
        ];
        unique = λ j l mine yours same. elim (Bool-cases (j == i)) [
          | inl first ↦ elim (Bool-cases (l == i)) [
            | inl second ↦ sym (equal_index i j first) ∙ equal_index i l second
            | inr second ↦
                sym (equal_index i j first)
                ∙ owner l (rw first at mine) (rw second at yours)
                    (sym effect.same_key ∙ (rw (first, second) at same))
          ]
          | inr first ↦ elim (Bool-cases (l == i)) [
            | inl second ↦
                sym (
                  owner j (rw second at yours) (rw first at mine)
                    (sym effect.same_key ∙ sym (rw (first, second) at same)))
                ∙ equal_index i l second
            | inr second ↦
                h.unique j l (rw first at mine) (rw second at yours) (rw (first, second) at same)
          ]
        ];
      }

  Step-IsExclusive :
      {pool later : Pool Raw A} → Step json pool later → IsExclusive pool → IsExclusive later
  unfolding run_unanswered
  Step-IsExclusive (command link clock script i pool) h =
      act_at-IsExclusive link clock script i pool h
  Step-IsExclusive (unanswered i pool kind) h = record {
    disciplined = h.disciplined;
    held = λ j mine.
        unanswered-keeps json lost_reply pool.now 0 (record { ops = []; ending = returned })
          pool.server (pool.processes i).key (pool.processes i).owned (pool.processes i).program
          (h.disciplined i) kind (pool.processes j).key (h.held j mine);
    unique = h.unique;
  }
  Step-IsExclusive (wait time pool still) h = record {
    disciplined = h.disciplined;
    held = still;
    unique = h.unique;
  }

  Reach-IsExclusive :
      {start pool : Pool Raw A} → IsExclusive start → Reach json start pool → IsExclusive pool
  Reach-IsExclusive h here = h
  Reach-IsExclusive h (next reached step) = Step-IsExclusive step (Reach-IsExclusive h reached)

-- The process is running its handler.
abbrev pub IsServing : {Raw A : Type 0} → Program Raw A → Type 0
IsServing (serve_next request k) = Unit
IsServing _ = ⊥

serving_is_owned :
    {Raw A : Type 0} (key : String) (owned : Bool) (program : Program Raw A)
    → Disciplined key owned program
    → IsServing program
    → owned ≡ true
serving_is_owned key true program d s = refl
serving_is_owned key false (serve_next request k) d s = absurd d
serving_is_owned key false (done a) d s = absurd s
serving_is_owned key false (local_time k) d s = absurd s
serving_is_owned key false (set_nx name value ttl k) d s = absurd s
serving_is_owned key false (get name k) d s = absurd s
serving_is_owned key false (eval_complete name value ttl k) d s = absurd s
serving_is_owned key false (eval_release name k) d s = absurd s

module _ (platform : Platform) {Raw : Type 0} (json : Codec Raw) (ttl : ℕ) (requests : ℕ → Request)
    (outs : ℕ → Writer) (keys : ℕ → String) where
  -- Requests that have all just arrived, over a store in any state.
  abbrev pub arrivals : ℕ → Server Raw → Pool Raw (Writer × Ending)
  arrivals now server = record {
    now = now;
    server = server;
    processes = λ i. record {
      key = prefixed (keys i);
      owned = false;
      program = idempotency_middleware platform (redis_store json) ttl (requests i) (outs i);
    };
  }

  -- Of any number of requests with keys, interleaved command by command over one store in any
  -- state, with commands and replies lost at will and commands run again whose reply was lost, but
  -- for that of Release, no two with the same key run their handlers at once, where the handlers take
  -- any time in which no reservation runs out under its owner.
  pub handlers_exclude_each_other :
      (bodies : ℕ → List ℕ) (now : ℕ) (server : Server Raw) (pool : Pool Raw (Writer × Ending))
      (i j : ℕ)
      → ((n : ℕ) → IsKeyed platform (requests n) (keys n) (bodies n))
      → Reach json (arrivals now server) pool
      → IsServing (pool.processes i).program
      → IsServing (pool.processes j).program
      → (pool.processes i).key ≡ (pool.processes j).key
      → i ≡ j
  handlers_exclude_each_other bodies now server pool i j keyed reached mine yours same =
      let h =
        Reach-IsExclusive json {start = arrivals now server}
          (record {
            disciplined = λ n.
                idempotency_middleware-Disciplined platform json ttl (keys n) (requests n) (outs n)
                  (bodies n) (keyed n);
            held = λ n e. cc;
            unique = λ n m e. cc;
          })
          reached in
      h.unique i j (serving_is_owned _ _ _ (h.disciplined i) mine)
        (serving_is_owned _ _ _ (h.disciplined j) yours) same
