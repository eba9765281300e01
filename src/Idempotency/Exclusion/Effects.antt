-- ===== src/Idempotency/Exclusion/Effects.antt =====
-- One command of one process, and what it does to the store.
use internal_developer_platf.Shared.{
  Bool-cases, inl, inr, str_eq, subst, sym, ℕ, String, ◌≡◌, refl, ◌≢◌, Bool, true, false, Option,
  none, some, arith, if◌then◌else◌, str_eq_iff,
}
use internal_developer_platf.Http.{Script}
use internal_developer_platf.Idempotency.Redis.{
  Codec, Server, Link, healthy, lost_request, lost_reply, live, update, transmit, exec_set_nx,
  exec_get, exec_complete, exec_release,
}
use internal_developer_platf.Idempotency.Program.{
  Program, done, local_time, set_nx, get, eval_complete, eval_release, serve_next,
}
use internal_developer_platf.Idempotency.Exclusion.{Process, act, is_taken, is_release, granted}
use internal_developer_platf.Idempotency.Exclusion.Discipline.{Disciplined}

-- What one command does to the store, seen from every key: a key that is taken stays so unless the
-- command's owner works on that key, and a reservation is granted only on a key that is free.
pub record Effect {Raw A : Type 0} (now : ℕ) (key : String) (owned : Bool)
    (before after : Server Raw) (p : Process Raw A) : Type 0 where
  pub same_key : p.key ≡ key
  pub disciplined : Disciplined key p.owned p.program
  pub others :
      (other : String)
      → other ≢ key
      → is_taken now before other ≡ true
      → is_taken now after other ≡ true
  pub held :
      p.owned ≡ true
      → (owned ≡ true → is_taken now before key ≡ true)
      → is_taken now after key ≡ true
  pub kept : owned ≡ false → is_taken now before key ≡ true → is_taken now after key ≡ true
  pub fresh : p.owned ≡ true → owned ≡ false → is_taken now before key ≡ false

-- The keys that a command leaves taken.
abbrev Leaves : {Raw : Type 0} → ℕ → String → Server Raw → Server Raw → Type 0
Leaves now key before after =
    (other : String)
    → other ≢ key
    → is_taken now before other ≡ true
    → is_taken now after other ≡ true

module _ {Raw : Type 0} (now : ℕ) (server : Server Raw) (name key : String)
    (same : name ≡ key) where
  set_nx-Leaves :
      (link : Link) (value : Raw) (ttl : ℕ)
      → Leaves now key server (transmit link server (exec_set_nx now name value ttl server)).0
  unfolding transmit exec_set_nx is_taken live update
  set_nx-Leaves healthy value ttl other ne taken = ground (arith, str_eq_iff other name)
  set_nx-Leaves lost_request value ttl other ne taken = taken
  set_nx-Leaves lost_reply value ttl other ne taken = ground (arith, str_eq_iff other name)

  set_nx-keeps :
      (link : Link) (value : Raw) (ttl : ℕ)
      → is_taken now server key ≡ true
      → is_taken now (transmit link server (exec_set_nx now name value ttl server)).0 key ≡ true
  unfolding transmit exec_set_nx is_taken live update
  set_nx-keeps healthy value ttl taken = ground (arith, str_eq_iff key name)
  set_nx-keeps lost_request value ttl taken = taken
  set_nx-keeps lost_reply value ttl taken = ground (arith, str_eq_iff key name)

  set_nx-grants :
      (link : Link) (value : Raw) (ttl : ℕ)
      → let (after, reply) = transmit link server (exec_set_nx now name value ttl server) in
        granted reply ≡ true → (is_taken now after key ≡ true) × (is_taken now server key ≡ false)
  unfolding transmit exec_set_nx is_taken live update
  set_nx-grants healthy value ttl yes_set = ground (arith, str_eq_iff key name)
  set_nx-grants lost_request value ttl yes_set = cc
  set_nx-grants lost_reply value ttl yes_set = cc

  complete-Leaves :
      (link : Link) (value : Raw) (ttl : ℕ)
      → Leaves now key server (transmit link server (exec_complete now name value ttl server)).0
  unfolding transmit exec_complete is_taken live update
  complete-Leaves healthy value ttl other ne taken = ground (arith, str_eq_iff other name)
  complete-Leaves lost_request value ttl other ne taken = taken
  complete-Leaves lost_reply value ttl other ne taken = ground (arith, str_eq_iff other name)

  complete-keeps :
      (link : Link) (value : Raw) (ttl : ℕ)
      → is_taken now server key ≡ true
      → is_taken now (transmit link server (exec_complete now name value ttl server)).0 key ≡ true
  unfolding transmit exec_complete is_taken live update
  complete-keeps healthy value ttl taken = ground (arith, str_eq_iff key name)
  complete-keeps lost_request value ttl taken = taken
  complete-keeps lost_reply value ttl taken = ground (arith, str_eq_iff key name)

  release-Leaves :
      (json : Codec Raw) (link : Link)
      → Leaves now key server
          (transmit link server (exec_release json.finds_quoted now name server)).0
  unfolding transmit exec_release is_taken live update
  release-Leaves json healthy other ne taken = ground (arith, str_eq_iff other name)
  release-Leaves json lost_request other ne taken = taken
  release-Leaves json lost_reply other ne taken = ground (arith, str_eq_iff other name)

get-unmoved :
    {Raw : Type 0} (now : ℕ) (server : Server Raw) (name : String) (link : Link)
    → (transmit link server (exec_get now name server)).0 ≡ server
unfolding transmit exec_get
get-unmoved now server name healthy = ground arith
get-unmoved now server name lost_request = refl
get-unmoved now server name lost_reply = ground arith

at_any_key :
    {Raw : Type 0} (now : ℕ) (key : String) (before after : Server Raw)
    → Leaves now key before after
    → (is_taken now before key ≡ true → is_taken now after key ≡ true)
    → (other : String) → is_taken now before other ≡ true
    → is_taken now after other ≡ true
at_any_key now key before after leaves keeps other taken = elim (Bool-cases (str_eq other key)) [
  | inl same ↦
      let e = (str_eq_iff other key).0 same in
      subst (λ k. is_taken now after k ≡ true) (sym e)
        (keeps (subst (λ k. is_taken now before k ≡ true) e taken))
  | inr differs ↦ leaves other (λ e. ground (arith, str_eq_iff other key)) taken
]

mine_granted : (b : Bool) → (if b then true else false) ≡ true → b ≡ true
mine_granted true e = refl
mine_granted false e = e

module _ {Raw A : Type 0} (json : Codec Raw) (link : Link) (now clock : ℕ) (script : Script)
    (server : Server Raw) (key : String) where
  granted-Disciplined :
      (k : Option Bool → Program Raw A) (reply : Option Bool)
      → Disciplined key false (k none)
      → Disciplined key false (k (some false))
      → Disciplined key true (k (some true))
      → Disciplined key (if granted reply then true else false) (k reply)
  granted-Disciplined k none a b c = a
  granted-Disciplined k (some false) a b c = b
  granted-Disciplined k (some true) a b c = c

  unmoved :
      (owned : Bool) (program : Program Raw A)
      → Disciplined key owned program
      → Effect now key owned server server (record { key = key; owned = owned; program = program })
  unmoved owned program d = record {
    same_key = refl;
    disciplined = d;
    others = λ other ne taken. taken;
    held = λ mine before. before mine;
    kept = λ e taken. taken;
    fresh = λ mine free. cc;
  }

  pub act-Effect :
      (owned : Bool) (program : Program Raw A)
      → Disciplined key owned program
      → let (after, p) = act json link now clock script server key owned program in
        Effect now key owned server after p
  unfolding act
  act-Effect owned (done a) d = unmoved owned (done a) d
  act-Effect owned (local_time k) d = unmoved owned (k clock) (d clock)
  act-Effect true (set_nx name value ttl k) d = absurd d
  act-Effect false (set_nx name value ttl k) d = record {
    same_key = refl;
    disciplined = granted-Disciplined k _ d.1 d.2 d.3;
    others = set_nx-Leaves now server name key d.0 link value ttl;
    held = λ mine before.
        (set_nx-grants now server name key d.0 link value ttl (mine_granted _ mine)).0;
    kept = λ e taken. set_nx-keeps now server name key d.0 link value ttl taken;
    fresh =
        λ mine free. (set_nx-grants now server name key d.0 link value ttl (mine_granted _ mine)).1;
  }
  act-Effect owned (get name k) d =
      rw (get-unmoved now server name link)
        (unmoved owned (k (transmit link server (exec_get now name server)).1) (d _))
  act-Effect false (eval_complete name value ttl k) d = absurd d
  act-Effect true (eval_complete name value ttl k) d = record {
    same_key = refl;
    disciplined = d.1 _;
    others = complete-Leaves now server name key d.0 link value ttl;
    held = λ mine before. cc;
    kept = λ e taken. cc;
    fresh = λ mine free. cc;
  }
  act-Effect false (eval_release name k) d = absurd d
  act-Effect true (eval_release name k) d = record {
    same_key = refl;
    disciplined = d.1 _;
    others = release-Leaves now server name key d.0 json link;
    held = λ mine before. cc;
    kept = λ e taken. cc;
    fresh = λ mine free. cc;
  }
  act-Effect false (serve_next request k) d = absurd d
  act-Effect true (serve_next request k) d = unmoved true (k script) (d script)

  -- A command other than that of Release leaves every key taken that was taken.
  pub unanswered-keeps :
      (owned : Bool) (program : Program Raw A)
      → Disciplined key owned program
      → is_release program ≡ false
      → let after = (act json link now clock script server key owned program).0 in
        (other : String) → is_taken now server other ≡ true → is_taken now after other ≡ true
  unfolding act
  unanswered-keeps owned (done a) d kind other taken = taken
  unanswered-keeps owned (local_time k) d kind other taken = taken
  unanswered-keeps true (set_nx name value ttl k) d kind other taken = absurd d
  unanswered-keeps false (set_nx name value ttl k) d kind other taken =
      at_any_key now key server _ (set_nx-Leaves now server name key d.0 link value ttl)
        (set_nx-keeps now server name key d.0 link value ttl) other taken
  unanswered-keeps owned (get name k) d kind other taken =
      rw (get-unmoved now server name link) taken
  unanswered-keeps false (eval_complete name value ttl k) d kind other taken = absurd d
  unanswered-keeps true (eval_complete name value ttl k) d kind other taken =
      at_any_key now key server _ (complete-Leaves now server name key d.0 link value ttl)
        (complete-keeps now server name key d.0 link value ttl) other taken
  unanswered-keeps owned (eval_release name k) d kind other taken = cc
  unanswered-keeps owned (serve_next request k) d kind other taken = taken
