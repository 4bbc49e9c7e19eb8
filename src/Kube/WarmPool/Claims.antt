-- ===== src/Kube/WarmPool/Claims.antt =====
-- What `GetWarmPod` claims.
use agentic_tenancy.Base.{
  String, ◌≡◌, ◌≢◌, ◌⊎◌, ◌↔◌, inl, inr, refl, true, false, none, some, List, [], ◌∷◌, Error, ok,
  err, ap, arith, Result-cases, Bool-cases, Option, Result, subst, sym, eq_iff, ◌==◌, string_eq,
  if◌then◌else◌,
}
use agentic_tenancy.Base.Dict
use agentic_tenancy.Base.Dict.{lookup-insert}
use agentic_tenancy.Kube.Objects.{
  KubeClient, Pod, PodPhase, pod_running, unset, pending, succeeded, failed, unknown,
}
use agentic_tenancy.Kube.Pods.{is_running}
use agentic_tenancy.Kube.WarmPool.{is_claimable, claimed, claim_first, get_warm_pod, warm_selector}

-- The pod is running, has an IP, and is not being deleted.
abbrev pub IsFree : Pod → Type 0
IsFree p = (p.phase ≡ pod_running) × (p.pod_ip ≢ "") × (p.deleting ≡ false)

-- `q` is `p` with the label `warm` set to `consuming`, and all else as it was.
abbrev pub Relabelled : Pod → Pod → Type 0
Relabelled p q =
    (q ≡ record p { labels = q.labels })
    × ((k : String)
        → Dict.lookup k q.labels
          ≡ (if "warm" == k then some "consuming" else Dict.lookup k p.labels))

-- The pods are tried in their order, from the world `w` on: a pod that is not free is passed over,
-- and the others are relabelled, until the server accepts one.
abbrev pub Tries : {W : Type 0} → KubeClient W → String → List Pod → W → Option Pod × W → Type 0
Tries c namespace [] w (o, last) = (o ≡ none) × (last ≡ w)
Tries c namespace (p ∷ l) w (o, last) =
    (¬ IsFree p × Tries c namespace l w (o, last))
    ⊎ (IsFree p
        × (q : Pod) × Relabelled p q
        × (((pod : Pod) × (o ≡ some pod) × (c.cs.update_pod namespace q w ≡ (ok pod, last)))
            ⊎ (((e : Error) × ((c.cs.update_pod namespace q w).0 ≡ err e))
                × Tries c namespace l (c.cs.update_pod namespace q w).1 (o, last))))

is_running_sound : (phase : PodPhase) → is_running phase ≡ true → phase ≡ pod_running
is_running_sound pod_running e = refl
is_running_sound unset e = absurd (ground arith)
is_running_sound pending e = absurd (ground arith)
is_running_sound succeeded e = absurd (ground arith)
is_running_sound failed e = absurd (ground arith)
is_running_sound unknown e = absurd (ground arith)

is_claimable_iff : (p : Pod) → (is_claimable p ≡ true) ↔ IsFree p
is_claimable_iff p = (
  λ e. elim (Bool-cases (is_running p.phase)) [
    | inl r ↦
        let open_ = is_running_sound p.phase r in
        (open_, ground (arith, eq_iff p.pod_ip "", e), ground (arith, e))
    | inr r ↦ absurd (ground (arith, r, e))
  ],
  λ f. ground (arith, eq_iff p.pod_ip "", f.1, f.2, ap is_running f.0),
)

claimed-Relabelled : (p : Pod) → Relabelled p (claimed p)
claimed-Relabelled p = (refl, λ k. lookup-insert "warm" k "consuming" p.labels)

module _ {W : Type 0} (c : KubeClient W) (namespace : String) where
  claim_first-Tries :
      (pods : List Pod) (w : W) → Tries c namespace pods w (claim_first c namespace pods w)
  unfolding claim_first
  claim_first-Tries [] w = (refl, refl)
  claim_first-Tries (p ∷ l) w =
      let (reply, w1) = c.cs.update_pod namespace (claimed p) w in
      let rest = claim_first-Tries l in
      elim (Bool-cases (is_claimable p)) [
        | inr e ↦
            let same : claim_first c namespace (p ∷ l) w ≡ claim_first c namespace l w =
              ground (arith, e) in
            subst (Tries c namespace (p ∷ l) w) (sym same)
              (inl (λ free. ground (arith, e, (is_claimable_iff p).1 free), rest w))
        | inl e ↦ elim (Result-cases reply) [
          | inl (pod, f) ↦
              let same : claim_first c namespace (p ∷ l) w ≡ (some pod, w1) =
                ground (arith, e, f) in
              subst (Tries c namespace (p ∷ l) w) (sym same) (
                inr (
                  (is_claimable_iff p).0 e,
                  claimed p,
                  claimed-Relabelled p,
                  inl (pod, refl, ap (λ x. (x, w1)) f),
                ))
          | inr (x, f) ↦
              let same : claim_first c namespace (p ∷ l) w ≡ claim_first c namespace l w1 =
                ground (arith, e, f) in
              subst (Tries c namespace (p ∷ l) w) (sym same) (
                inr (
                  (is_claimable_iff p).0 e,
                  claimed p,
                  claimed-Relabelled p,
                  inr ((x, f), rest w1),
                ))
        ]
      ]

  -- What a call that has listed the pods answers: the trial's outcome, and never an error.
  abbrev pub Claims : List Pod → W → Result (Option Pod) × W → Type 0
  Claims pods w (ok o, last) = Tries c namespace pods w (o, last)
  Claims pods w (err _, last) = ⊥

  -- Where the pods are listed, `GetWarmPod` returns no error. It tries the pods in their order,
  -- passing over those that are not running, have no IP or are being deleted; each other is sent to
  -- the server with the label `warm` set to `consuming` and all else unchanged, until the server
  -- accepts one, and its reply is returned. No pod is returned only if the server accepted none.
  pub get_warm_pod_lem :
      (w : W) (pods : List Pod)
      → (c.cs.list_pods namespace warm_selector w).0 ≡ ok pods
      → Claims pods (c.cs.list_pods namespace warm_selector w).1 (get_warm_pod c namespace w)
  unfolding get_warm_pod
  get_warm_pod_lem w pods e =
      let w1 = (c.cs.list_pods namespace warm_selector w).1 in
      let tried = claim_first c namespace pods w1 in
      let same : get_warm_pod c namespace w ≡ (ok tried.0, tried.1) = ground (arith, e) in
      subst (Claims pods w1) (sym same) (claim_first-Tries pods w1)
