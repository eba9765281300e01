-- ===== src/Startup.antt =====
-- What starting and stopping is made of in both services: errors that fmt.Errorf wraps, and steps
-- that open and close parts and end at the first error.
use internal_developer_platf.Shared.{
  ℕ, ◌≡◌, refl, List, [], ◌∷◌, ◌++◌, Result, ok, err, ◌==◌, if◌then◌else◌,
}
use internal_developer_platf.Text.{Text}

-- An error that was made from a text alone or comes from a library, or fmt.Errorf("…: %w", err).
pub data WrappedError : Type 0 where
  plain_error : Text → WrappedError
  wrapped_error : Text → WrappedError → WrappedError

-- A value's error, wrapped.
unfoldable pub wrap_error : {A : Type 0} → Text → Result WrappedError A → Result WrappedError A
wrap_error context (ok a) = ok a
wrap_error context (err e) = err (wrapped_error context e)

-- What is opened at the start and must be closed.
pub data Part : Type 0 where
  logs_part tracing_part metrics_part redis_part publisher_part : Part

abbrev pub part_number : Part → ℕ
part_number logs_part = 0
part_number tracing_part = 1
part_number metrics_part = 2
part_number redis_part = 3
part_number publisher_part = 4

-- What happens to a part: it is made, its Close or Shutdown is called, or a warning says that this
-- call failed.
pub data Event : Type 0 where
  opened closed warned : Part → Event

-- Steps with what they did and their result.
pub data Run (A : Type 0) : Type 0 where
  did : List Event → Result WrappedError A → Run A

abbrev pub events : {A : Type 0} → Run A → List Event
events (did es r) = es

abbrev pub result : {A : Type 0} → Run A → Result WrappedError A
result (did es r) = r

unfoldable pub pure : {A : Type 0} → A → Run A
pure a = did [] (ok a)

-- A step that opens and closes nothing.
unfoldable pub lift : {A : Type 0} → Result WrappedError A → Run A
lift r = did [] r

unfoldable pub open_events : {A : Type 0} → Part → Result WrappedError A → List Event
open_events p (ok a) = opened p ∷ []
open_events p (err e) = []

-- A step that makes a part, unless it fails.
unfoldable pub open_part : {A : Type 0} → Part → Result WrappedError A → Run A
unfolding open_events
open_part p r = did (open_events p r) r

unfoldable pub follow : {A B : Type 0} → List Event → Result WrappedError A → (A → Run B) → Run B
follow es (ok a) f = did (es ++ events (f a)) (result (f a))
follow es (err e) f = did es (err e)

infixl 5 ◌>>=◌
unfoldable pub ◌>>=◌ : {A B : Type 0} → Run A → (A → Run B) → Run B
unfolding follow
did es r >>= f = follow es r f

-- One part less.
unfoldable pub without : Part → List Part → List Part
without p [] = []
without p (q ∷ held) =
    let rest = without p held in if part_number p == part_number q then held else q ∷ rest

-- The parts that are open after some events, the last opened first.
unfoldable pub still_open : List Part → List Event → List Part
unfolding without
still_open held [] = held
still_open held (opened p ∷ events) = still_open (p ∷ held) events
still_open held (closed p ∷ events) = still_open (without p held) events
still_open held (warned p ∷ events) = still_open held events

pub still_open-append :
    (held : List Part) (events more : List Event)
    → still_open held (events ++ more) ≡ still_open (still_open held events) more
unfolding still_open
still_open-append held [] more = refl
still_open-append held (opened p ∷ events) more = still_open-append (p ∷ held) events more
still_open-append held (closed p ∷ events) more = still_open-append (without p held) events more
still_open-append held (warned p ∷ events) more = still_open-append held events more

run_eta : {A : Type 0} (r : Run A) → did (events r) (result r) ≡ r
run_eta (did es r) = refl

pub pure_bind : {A B : Type 0} (a : A) (f : A → Run B) → (pure a >>= f) ≡ f a
unfolding pure ◌>>=◌ follow
pure_bind a f = run_eta (f a)
