-- ===== src/Services.antt =====
-- What the program takes from outside the repository: the clock, the Redis client
-- (github.com/redis/go-redis). A record of actions on the world, with no law.
use agentic_tenancy.Base.{ℕ, String, Bool, List, Result, Action, ◌≡◌}

-- `time.Now()`, in nanoseconds; the `select` that waits for `time.After d`, and gives the context's
-- error where that is done first; and `ctx.Err() != nil`.
pub record Clock (W : Type 0) : Type 0 where
  pub now : Action W ℕ
  pub pause : ℕ → Action W (Result (Unit {0}))
  pub is_cancelled : Action W Bool

-- A reply to an HTTP request: its status and its body.
pub record HttpReply : Type 0 where
  pub status : ℕ
  pub body : String

-- `net/http`: `http.NewRequestWithContext` may refuse a URL; `send` is `httpClient.Do` of a method,
-- a URL, a content type and a body. `encode_form` is `url.Values.Encode`.
pub record Http (W : Type 0) : Type 0 where
  pub build : String → String → Result (Unit {0})
  pub send : String → String → String → String → Action W (Result HttpReply)
  pub encode_form : List (String × String) → String

-- `SetNX`, `Get`, `Set` and `Del` of a Redis client. A duration is in nanoseconds.
pub record Redis (W : Type 0) : Type 0 where
  pub set_nx : String → String → ℕ → Action W (Result Bool)
  pub get : String → Action W (Result String)
  pub set : String → String → ℕ → Action W (Result (Unit {0}))
  pub del : String → Action W (Result (Unit {0}))

-- A part of the world that one component owns.
pub record Slot (W A : Type 0) : Type 0 where
  pub view : W → A
  pub put : A → W → W
  pub view-put : (a : A) (w : W) → view (put a w) ≡ a

-- An action that leaves a view of the world as it was.
pub record Frames {W A V : Type 0} (view : W → V) (m : Action W A) : Type 0 where
  pub at : (w : W) → view (m w).1 ≡ view w
