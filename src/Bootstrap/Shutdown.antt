-- ===== src/Bootstrap/Shutdown.antt =====
-- application.go: Shutdown.
pub mod Balance
pub mod Steps
pub mod Complete
use internal_developer_platf.Shared.{
  Bool, true, false, Option, none, some, List, [], ◌∷◌, ◌++◌, Result, ok, err, if◌then◌else◌,
}
use internal_developer_platf.Startup.{
  WrappedError, Part, logs_part, tracing_part, metrics_part, redis_part, publisher_part, Event,
  closed, warned, Run, did,
}
use internal_developer_platf.Bootstrap.{Publisher, sqs_publisher, kafka_publisher, Application}

-- The publisher is an io.Closer.
unfoldable pub is_closer : Option Publisher → Bool
is_closer none = false
is_closer (some (sqs_publisher url)) = false
is_closer (some (kafka_publisher brokers topic)) = true

abbrev pub is_some : {A : Type 0} → Option A → Bool
is_some none = false
is_some (some a) = true

abbrev pub part_if : Bool → Part → List Part
part_if needed p = if needed then p ∷ [] else []

-- The parts that Shutdown closes, in its order.
unfoldable pub held_parts : {D N : Type 0} → Application D N → List Part
held_parts app =
    part_if (is_some app.redis_client) redis_part
    ++ (part_if (is_closer app.resource_publisher) publisher_part
        ++ (part_if app.has_metrics metrics_part
            ++ (part_if app.has_tracing tracing_part ++ part_if app.has_logs logs_part)))

warn_if : Part → Result WrappedError (Unit {0}) → List Event
warn_if p (ok u) = []
warn_if p (err e) = warned p ∷ []

close_all : (Part → Result WrappedError (Unit {0})) → List Part → List Event
unfolding warn_if
close_all close [] = []
close_all close (p ∷ parts) = closed p ∷ (warn_if p (close p) ++ close_all close parts)

-- Shutdown, where `close` is what Close or Shutdown of each part returns.
unfoldable pub shutdown :
    {D N : Type 0} → (Part → Result WrappedError (Unit {0})) → Application D N → Run (Unit {0})
unfolding close_all held_parts
shutdown close app = did (close_all close (held_parts app)) (ok tt)
