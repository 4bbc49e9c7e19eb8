-- ===== src/Router/Steps.antt =====
-- The changes of the world that an update can make: each is a request, or a call of Redis.
use agentic_tenancy.Base.{
  String, ◌≡◌, refl, sym, subst, inl, inr, arith, Bool-cases, ◌==◌, Result, ok, err, Preorder,
  Moves, if-Moves, on_ok-Moves, ◌>>=◌, on_ok, string_eq, nat_eq,
}
use agentic_tenancy.Base.Int64.{Int64}
use agentic_tenancy.Services.{HttpReply}
use agentic_tenancy.Router.{
  Router, starting_text, cache_key, endpoint_cache_ttl, send_built, must_send,
  send_telegram_message, update_activity, get_bot_token, wake_pod, get_cached_pod_ip, notify,
  send_answer, after_forward, forward_built, forward_to_pod, deliver, after_wake, start_up,
  with_cached, handle_telegram_update, extract_chat_id,
}

-- `R` holds between the worlds before and after each of them, but for the storing of an IP.
pub record Allows {W : Type 0} (rt : Router W) (id : String) (R : W → W → Type 0) : Type 0 where
  pub order : Preorder R
  pub sends : (m u c b : String) → Moves R (rt.http.send m u c b)
  pub reads : Moves R (rt.rdb.get (cache_key rt id))
  pub clears : Moves R (rt.rdb.del (cache_key rt id))

-- An IP that a wake in the world `v` returns may be stored.
abbrev pub Stores : {W : Type 0} → Router W → String → (W → W → Type 0) → W → Type 0
Stores rt id R v =
    (ip : String)
    → (wake_pod rt id v).0 ≡ ok ip
    → Moves R (rt.rdb.set (cache_key rt id) ip endpoint_cache_ttl)

-- The world in which an update, started in `w`, wakes its tenant: after the look into the cache, the
-- request for the token, and the message that tells the user to wait.
abbrev pub told_at : {W : Type 0} → Router W → String → String → W → W
told_at rt id body w =
    (notify rt (extract_chat_id rt body) (get_bot_token rt id w).0 starting_text
      (get_bot_token rt id w).1).1

abbrev pub woken_at : {W : Type 0} → Router W → String → String → W → W
woken_at rt id body w = told_at rt id body (rt.rdb.get (cache_key rt id) w).1

module _ {W : Type 0} (rt : Router W) (id : String) (R : W → W → Type 0)
    (allows : Allows rt id R) where
  open allows use {order, sends, reads, clears}

  send_built-Moves : (m u c b : String) (r : Result (Unit {0})) → Moves R (send_built rt m u c b r)
  send_built-Moves m u c b (ok tt) w = sends m u c b w
  send_built-Moves m u c b (err e) w = order.stay w

  must_send-Moves : (m u c b : String) (r : Result (Unit {0})) → Moves R (must_send rt m u c b r)
  must_send-Moves m u c b (ok tt) w = sends m u c b w
  must_send-Moves m u c b (err e) w = order.stay w

  get_bot_token-Moves : Moves R (get_bot_token rt id)
  unfolding get_bot_token
  get_bot_token-Moves w = send_built-Moves _ _ _ _ _ w

  wake_pod-Moves : Moves R (wake_pod rt id)
  unfolding wake_pod
  wake_pod-Moves w = send_built-Moves _ _ _ _ _ w

  update_activity-Moves : Moves R (update_activity rt id)
  unfolding update_activity
  update_activity-Moves w = must_send-Moves _ _ _ _ _ w

  notify-Moves : (chat : Int64) (token message : String) → Moves R (notify rt chat token message)
  unfolding notify send_telegram_message
  notify-Moves chat token message = if-Moves R _ _ _ (must_send-Moves _ _ _ _ _) (λ w. order.stay w)

  send_answer-Moves : (body : String) (r : Result String) → Moves R (send_answer rt id body r)
  unfolding send_answer
  send_answer-Moves body (err e) = λ w. order.stay w
  send_answer-Moves body (ok answer) =
      if-Moves R _ _ _ (λ w. order.stay w)
        (λ w.
          order.chain _ _ _ (get_bot_token-Moves w)
            (notify-Moves (extract_chat_id rt body) (get_bot_token rt id w).0 answer _))

  forward_to_pod-Moves : (ip body : String) → Moves R (forward_to_pod rt ip id body)
  unfolding forward_to_pod forward_built after_forward
  forward_to_pod-Moves ip body = if-Moves R _ _ _ (λ w. order.stay w) (built _)
    where
      answered : (r : Result HttpReply) → Moves R (after_forward rt id body r)
      answered (err e) = clears
      answered (ok reply) = send_answer-Moves body _

      built : (r : Result (Unit {0})) → Moves R (forward_built rt ip id body r)
      built (err e) w = order.stay w
      built (ok tt) w = order.chain _ _ _ (sends _ _ _ _ w) (answered _ _)

  deliver-Moves : (body ip : String) → Moves R (deliver rt id body ip)
  unfolding deliver
  deliver-Moves body ip =
      on_ok-Moves R _ _ _ order (forward_to_pod-Moves ip body) (λ a. update_activity-Moves)

  start_up-Moves :
      (body : String) (w : W)
      → Stores rt id R (told_at rt id body w)
      → R w (start_up rt id body w).1
  unfolding start_up after_wake
  start_up-Moves body w stores = order.chain _ _ _ (get_bot_token-Moves w) (
      order.chain _ _ _
        (notify-Moves (extract_chat_id rt body) (get_bot_token rt id w).0 starting_text _) (told _))
    where
      after :
          (r : Result String)
          → (wake_pod rt id (told_at rt id body w)).0 ≡ r
          → Moves R (after_wake rt id body (get_bot_token rt id w).0 r)
      after (err e) came = notify-Moves (extract_chat_id rt body) (get_bot_token rt id w).0 _
      after (ok ip) came = λ w1. order.chain _ _ _ (stores ip came w1) (deliver-Moves body ip _)

      told :
          (r : Result (Unit {0}))
          → R
              (told_at rt id body w)
              (on_ok
                (λ e. e)
                (λ _. wake_pod rt id >>= after_wake rt id body (get_bot_token rt id w).0)
                r
                (told_at rt id body w)).1
      told (err e) = order.stay _
      told (ok u) = order.chain _ _ _ (wake_pod-Moves _) (after _ refl _)

  with_cached-Moves :
      (body : String) (w : W)
      → Stores rt id R (told_at rt id body w)
      → (r : Result String) → R w (with_cached rt id body r w).1
  unfolding with_cached
  with_cached-Moves body w stores (err e) = start_up-Moves body w stores
  with_cached-Moves body w stores (ok ip) = elim (Bool-cases (ip == "")) [
    | inl e ↦
        let same : with_cached rt id body (ok ip) w ≡ start_up rt id body w = ground (arith, e) in
        subst (λ r. R w r.1) (sym same) (start_up-Moves body w stores)
    | inr e ↦
        let same : with_cached rt id body (ok ip) w ≡ deliver rt id body ip w = ground (arith, e) in
        subst (λ r. R w r.1) (sym same) (deliver-Moves body ip w)
  ]

  -- So `R` holds between the worlds before and after the whole update.
  pub handle_telegram_update-Moves :
      (body : String) (w : W)
      → Stores rt id R (woken_at rt id body w)
      → R w (handle_telegram_update rt id body w).1
  unfolding handle_telegram_update get_cached_pod_ip
  handle_telegram_update-Moves body w stores =
      let (found, w1) = rt.rdb.get (cache_key rt id) w in
      order.chain _ _ _ (reads w) (with_cached-Moves body w1 stores found)
