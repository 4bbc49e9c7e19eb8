-- ===== src/Router/Panics.antt =====
-- When an update ends in a run-time panic, which ends the router's process.
use agentic_tenancy.Base.{
  String, ◌≡◌, ◌≢◌, refl, Bool, true, false, Result, ok, err, Error, panic, Action, arith, ◌>>=◌,
  on_ok, string_eq, nat_eq, if◌then◌else◌, eq_iff,
}
use agentic_tenancy.Base.Int64.{Int64}
use agentic_tenancy.Services.{HttpReply}
use agentic_tenancy.Router.{
  Router, starting_text, failed_text, message_url, activity_url, cache_key, send_telegram_message,
  update_activity, get_bot_token, wake_pod, get_cached_pod_ip, notify, send_answer, after_forward,
  forward_built, forward_to_pod, deliver, after_wake, start_up, with_cached, handle_telegram_update,
  extract_chat_id,
}

-- The action returns, with no panic.
abbrev Runs : {W : Type 0} → Action W (Result (Unit {0})) → Type 0
Runs {W} m = (w : W) → (m w).0 ≡ ok tt

Runs-if :
    {W : Type 0} (b : Bool) (m n : Action W (Result (Unit {0})))
    → Runs m
    → Runs n
    → Runs (if b then m else n)
Runs-if true m n h k = h
Runs-if false m n h k = k

Runs-then :
    {W : Type 0} (m : Action W (Result (Unit {0}))) (k : Unit {0} → Action W (Result (Unit {0})))
    → Runs m
    → Runs (k tt)
    → Runs (m >>= on_ok (λ e. e) k)
Runs-then m k h next w = ground (arith, h w, next (m w).1)

module _ {W : Type 0} (rt : Router W) (id : String)
    (messages : (token : String) → rt.http.build "POST" (message_url rt token) ≡ ok tt)
    (activity : rt.http.build "PUT" (activity_url rt id) ≡ ok tt) where
  update_activity-Runs : Runs (update_activity rt id)
  unfolding update_activity
  update_activity-Runs w = ground (arith, activity)

  notify-Runs : (chat : Int64) (token message : String) → Runs (notify rt chat token message)
  unfolding notify send_telegram_message
  notify-Runs chat token message w = ground (arith, messages token)

  send_answer-Runs : (body : String) (r : Result String) → Runs (send_answer rt id body r)
  unfolding send_answer
  send_answer-Runs body (err x) = λ w. refl
  send_answer-Runs body (ok answer) =
      Runs-if _ _ _ (λ w. refl)
        (λ w.
          notify-Runs (extract_chat_id rt body) (get_bot_token rt id w).0 answer
            (get_bot_token rt id w).1)

  forward_to_pod-Runs : (ip body : String) → Runs (forward_to_pod rt ip id body)
  unfolding forward_to_pod forward_built after_forward
  forward_to_pod-Runs ip body = Runs-if _ _ _ (λ w. refl) (built _)
    where
      answered : (r : Result HttpReply) → Runs (after_forward rt id body r)
      answered (err x) = λ w. refl
      answered (ok reply) = send_answer-Runs body (rt.json.decode_response reply.body)

      built : (r : Result (Unit {0})) → Runs (forward_built rt ip id body r)
      built (err x) = λ w. refl
      built (ok u) = λ w. answered _ _

  deliver-Runs : (body ip : String) → Runs (deliver rt id body ip)
  unfolding deliver
  deliver-Runs body ip =
      Runs-then (forward_to_pod rt ip id body) (λ _. update_activity rt id)
        (forward_to_pod-Runs ip body) update_activity-Runs

  start_up-Runs : (body : String) → Runs (start_up rt id body)
  unfolding start_up after_wake
  start_up-Runs body w = told (get_bot_token rt id w).0 (get_bot_token rt id w).1
    where
      after : (token : String) (r : Result String) → Runs (after_wake rt id body token r)
      after token (err e) = notify-Runs (extract_chat_id rt body) token failed_text
      after token (ok ip) = λ w1. deliver-Runs body ip _

      told :
          (token : String)
          → Runs (
              notify rt (extract_chat_id rt body) token starting_text
              >>= on_ok (λ e. e) (λ _. wake_pod rt id >>= after_wake rt id body token))
      told token =
          Runs-then (notify rt (extract_chat_id rt body) token starting_text)
            (λ _. wake_pod rt id >>= after_wake rt id body token)
            (notify-Runs (extract_chat_id rt body) token starting_text)
            (λ w1. after token (wake_pod rt id w1).0 (wake_pod rt id w1).1)

  -- Where the URLs of Telegram's `sendMessage` can be built for every token, and that of the
  -- tenant's activity, an update is handled to its end with no panic, whatever Redis, the
  -- orchestrator, the pod and Telegram answer, or if they fail.
  pub handle_telegram_update_returns :
      (body : String) (w : W) → (handle_telegram_update rt id body w).0 ≡ ok tt
  unfolding handle_telegram_update get_cached_pod_ip with_cached
  handle_telegram_update_returns body w =
      cached (rt.rdb.get (cache_key rt id) w).0 (rt.rdb.get (cache_key rt id) w).1
    where
      cached : (r : Result String) → Runs (with_cached rt id body r)
      cached (err e) = start_up-Runs body
      cached (ok ip) = Runs-if _ _ _ (start_up-Runs body) (deliver-Runs body ip)

-- A tenant whose token gives a URL that cannot be built ends the router's process, for all tenants:
-- the next update with a chat for that tenant, when its endpoint is not cached, panics.
pub handle_telegram_update_panics :
    {W : Type 0} (rt : Router W) (id body : String) (w : W) (x y : Error)
    → let (cached, w1) = rt.rdb.get (cache_key rt id) w in
      let token = (get_bot_token rt id w1).0 in
      (cached ≡ err x)
      → extract_chat_id rt body ≢ 0
      → token ≢ ""
      → rt.http.build "POST" (message_url rt token) ≡ err y
      → (handle_telegram_update rt id body w).0 ≡ err (panic "nil request")
unfolding handle_telegram_update get_cached_pod_ip with_cached start_up notify send_telegram_message
handle_telegram_update_panics rt id body w x y missing chat token bad =
    let w1 = (rt.rdb.get (cache_key rt id) w).1 in
    let t = (get_bot_token rt id w1).0 in ground (arith, eq_iff t "")
