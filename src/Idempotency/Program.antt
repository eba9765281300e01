-- ===== src/Idempotency/Program.antt =====
-- Go code that talks to Redis, as a tree of commands: each command waits for its reply. One tree
-- serves both the run of one request and the interleaving of many.
use internal_developer_platf.Shared.{
  ℕ, ◌+◌, String, ◌≡◌, refl, ap, fun_ext, Bool, Option, List, [], ◌∷◌, ◌++◌,
}
use internal_developer_platf.Http.{Request, Script}
use internal_developer_platf.Idempotency.Redis.{
  Server, Link, Codec, transmit, exec_set_nx, exec_get, exec_complete, exec_release,
}

pub data Program (Raw A : Type 0) : Type 0 where
  done : A → Program Raw A
  -- time.Now()
  local_time : (ℕ → Program Raw A) → Program Raw A
  set_nx : String → Raw → ℕ → (Option Bool → Program Raw A) → Program Raw A
  get : String → (Option (Option Raw) → Program Raw A) → Program Raw A
  eval_complete : String → Raw → ℕ → (Option Bool → Program Raw A) → Program Raw A
  eval_release : String → (Option Bool → Program Raw A) → Program Raw A
  -- next.ServeHTTP: the reply is what the handler did to its writer.
  serve_next : Request → (Script → Program Raw A) → Program Raw A

infixl 5 ◌>>=◌
abbrev pub ◌>>=◌ : {Raw A B : Type 0} → Program Raw A → (A → Program Raw B) → Program Raw B
done a >>= f = f a
local_time k >>= f = local_time (λ t. k t >>= f)
set_nx key value ttl k >>= f = set_nx key value ttl (λ r. k r >>= f)
get key k >>= f = get key (λ r. k r >>= f)
eval_complete key value ttl k >>= f = eval_complete key value ttl (λ r. k r >>= f)
eval_release key k >>= f = eval_release key (λ r. k r >>= f)
serve_next request k >>= f = serve_next request (λ r. k r >>= f)

pub >>=-done : {Raw A : Type 0} (m : Program Raw A) → (m >>= λ a. done a) ≡ m
>>=-done (done a) = refl
>>=-done (local_time k) = ap local_time (fun_ext (λ t. >>=-done (k t)))
>>=-done (set_nx key value ttl k) = ap (set_nx key value ttl) (fun_ext (λ r. >>=-done (k r)))
>>=-done (get key k) = ap (get key) (fun_ext (λ r. >>=-done (k r)))
>>=-done (eval_complete key value ttl k) =
    ap (eval_complete key value ttl) (fun_ext (λ r. >>=-done (k r)))
>>=-done (eval_release key k) = ap (eval_release key) (fun_ext (λ r. >>=-done (k r)))
>>=-done (serve_next request k) = ap (serve_next request) (fun_ext (λ r. >>=-done (k r)))

-- The circumstances of one command.
pub record Conditions : Type 0 where
  pub link : Link
  pub server_time : ℕ
  pub local_time : ℕ

pub record World (Raw : Type 0) : Type 0 where
  pub commands : ℕ
  pub server : Server Raw
  pub served : List Request

-- The world after a command that left the server as it is now.
abbrev pub proceed : {Raw : Type 0} → World Raw → Server Raw → World Raw
proceed w server = record w { commands = w.commands + 1; server = server }

module _ {Raw : Type 0} (json : Codec Raw) (conditions : ℕ → Conditions)
    (next : Request → Script) where
  -- The server after a command, with the reply that the client gets.
  send :
      {Answer : Type 0}
      → World Raw
      → (ℕ → Server Raw → Server Raw × Option Answer)
      → Server Raw × Option Answer
  send w command =
      transmit (conditions w.commands).link w.server
        (command (conditions w.commands).server_time w.server)

  unfoldable pub run : {A : Type 0} → Program Raw A → World Raw → A × World Raw
  unfolding send
  run (done a) w = (a, w)
  run (local_time k) w = run (k (conditions w.commands).local_time) w
  run (set_nx key value ttl k) w =
      let (server, reply) = send w (λ now. exec_set_nx now key value ttl) in
      run (k reply) (proceed w server)
  run (get key k) w =
      let (server, reply) = send w (λ now. exec_get now key) in run (k reply) (proceed w server)
  run (eval_complete key value ttl k) w =
      let (server, reply) = send w (λ now. exec_complete now key value ttl) in
      run (k reply) (proceed w server)
  run (eval_release key k) w =
      let (server, reply) = send w (λ now. exec_release json.finds_quoted now key) in
      run (k reply) (proceed w server)
  run (serve_next request k) w =
      run (k (next request)) (record w { served = w.served ++ request ∷ [] })
