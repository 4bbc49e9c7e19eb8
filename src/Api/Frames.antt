-- ===== src/Api/Frames.antt =====
-- The optional services of a handler that leave a view of the world alone.
use agentic_tenancy.Base.{String, ◌<>◌, refl, Option, none, some, [], ◌∷◌, arith, string_eq}
use agentic_tenancy.Services.{Frames, Redis}
use agentic_tenancy.Telegram.{TelegramClient, register_webhook, delete_webhook, bot_url, form_type}
use agentic_tenancy.Kube.Objects.{KubeClient}
use agentic_tenancy.Kube.Laws.{KubeFrames, delete_pod-Frames, delete_pvc-Frames}
use agentic_tenancy.Registry.{TenantRecord}
use agentic_tenancy.Kube.Pods.{delete_pod}
use agentic_tenancy.Api.{Handler, register, router_endpoint_cache_prefix}
use agentic_tenancy.Api.Tenants.{delete_objects, clear_cache, remove_webhook}

module _ {W V : Type 0} (view : W → V) where
  abbrev pub TelegramFrames : Option (TelegramClient W) → Type 0
  TelegramFrames none = Unit
  TelegramFrames (some tg) = (m u c b : String) → Frames view (tg.http.send m u c b)

  abbrev pub OptionalKubeFrames : Option (KubeClient W) → Type 0
  OptionalKubeFrames none = Unit
  OptionalKubeFrames (some k8s) = KubeFrames k8s.cs view

  abbrev pub RedisFrames : Option (Redis W) → Type 0
  RedisFrames none = Unit
  RedisFrames (some rdb) = (k : String) → Frames view (rdb.del k)

  pub register-Frames :
      (tg : Option (TelegramClient W)) (token id : String)
      → TelegramFrames tg
      → Frames view (register tg token id)
  unfolding register_webhook
  register-Frames none token id f = record { at = λ w. refl }
  register-Frames (some tg) token id f = record {
    at = λ w. ground (
      arith,
      (f "POST" (bot_url token "setWebhook") form_type
            (tg.http.encode_form (("url", tg.router_base_url <> "/tg/" <> id) ∷ []))).at
          w,
    );
  }

  pub remove_webhook-Frames :
      (h : Handler W) (tg : Option (TelegramClient W)) (token : String)
      → TelegramFrames tg
      → Frames view (remove_webhook h tg token)
  unfolding delete_webhook
  remove_webhook-Frames h none token f = record { at = λ w. refl }
  remove_webhook-Frames h (some tg) token f = record {
    at = λ w. ground (
      arith,
      (f "POST" (bot_url token "deleteWebhook") form_type "drop_pending_updates=false").at w,
    );
  }

  pub clear_cache-Frames :
      (h : Handler W) (rdb : Option (Redis W)) (id : String)
      → RedisFrames rdb
      → Frames view (clear_cache h rdb id)
  clear_cache-Frames h none id f = record { at = λ w. refl }
  clear_cache-Frames h (some rdb) id f = record {
    at = λ w. (f (router_endpoint_cache_prefix <> id)).at w;
  }

  pub delete_objects-Frames :
      (h : Handler W) (k8s : Option (KubeClient W)) (id : String) (rec : TenantRecord)
      → OptionalKubeFrames k8s
      → Frames view (delete_objects h k8s id rec)
  delete_objects-Frames h none id rec f = record { at = λ w. refl }
  delete_objects-Frames h (some k8s) id rec f = record {
    at = λ w.
        let w1 = (delete_pod k8s rec.pod_name rec.namespace 30 w).1 in
        ground (
          arith,
          (delete_pod-Frames k8s view f rec.pod_name rec.namespace 30).at w,
          (delete_pvc-Frames k8s view f id rec.namespace).at w,
          (delete_pvc-Frames k8s view f id rec.namespace).at w1,
        );
  }
