-- ===== src/Telegram/Slashes.antt =====
-- The slashes at the end of a URL, and the webhook's URL that the two programs register.
use agentic_tenancy.Base.{
  ℕ, ◌≤◌, String, ◌<>◌, ◌≡◌, ◌↔◌, refl, sym, ap, Bool, true, false, arith, ◌==◌, string_eq,
  eq_of_==, Bool-cases, inl, inr, if◌then◌else◌, ◌∙◌, Result,
}
use Prim.Native.Char.{Char}
use Prim.Native.String.{count}
use text.Mathlib.TextLemmas.{cons-append, length-cons, length-append, append_cancel_right}
use agentic_tenancy.Services.{Http}
use agentic_tenancy.Telegram
use agentic_tenancy.Router.Registration
use agentic_tenancy.Router.{Router}
use agentic_tenancy.Telegram.{ApiResponse, trim_right}

abbrev pub EndsInSlash : String → Type 0
EndsInSlash u = (v : String) × (u ≡ v <> "/")

trim_right-slash : (v : String) → trim_right (v <> "/") ≡ trim_right v
unfolding trim_right
trim_right-slash String.[] = refl
trim_right-slash (String.◌∷◌ c v) = ground (arith, cons-append c v "/", trim_right-slash v)

count_if :
    (b : Bool) (s t : String) (n : ℕ) → count s ≤ n → count t ≤ n → count (if b then s else t) ≤ n
count_if true s t n h k = h
count_if false s t n h k = k

count-trim_right : (u : String) → count (trim_right u) ≤ count u
unfolding trim_right
count-trim_right String.[] = omega arith
count-trim_right (String.◌∷◌ c u) =
    count_if _ "" (String.◌∷◌ c (trim_right u)) (count (String.◌∷◌ c u)) (omega arith)
      (omega (arith, count-trim_right u, length-cons c u, length-cons c (trim_right u)))

slash_after : (c : Char) (u : String) → EndsInSlash u → EndsInSlash (String.◌∷◌ c u)
slash_after c u (v, e) = (String.◌∷◌ c v, ap (λ s. String.◌∷◌ c s) e ∙ sym (cons-append c v "/"))

trim_right-fixes : (u : String) → ¬ EndsInSlash u → trim_right u ≡ u
unfolding trim_right
trim_right-fixes String.[] h = refl
trim_right-fixes (String.◌∷◌ c u) h =
    let rest = trim_right-fixes u (λ s. h (slash_after c u s)) in
    elim (Bool-cases (u == "")) [
      | inr full ↦ ground (arith, rest)
      | inl empty ↦ elim (Bool-cases (String.◌∷◌ c String.[] == "/")) [
        | inr other ↦ ground (arith, rest)
        | inl slash ↦
            let whole : String.◌∷◌ c u ≡ "/" =
              ap (λ s. String.◌∷◌ c s) (eq_of_== u "" empty)
              ∙ eq_of_== (String.◌∷◌ c String.[]) "/" slash in
            absurd (h ("", whole))
      ]
    ]

trim_right-fixed : (u : String) → trim_right u ≡ u → ¬ EndsInSlash u
trim_right-fixed u fixed (v, e) =
    let shorter : trim_right u ≡ trim_right v = ap trim_right e ∙ trim_right-slash v in
    absurd (
      omega (
        arith,
        count-trim_right v,
        ap count (sym fixed ∙ shorter),
        ap count e,
        length-append v "/",
      ))

-- The orchestrator's Telegram client and the router, made for one public URL, register the same webhook
-- for a tenant exactly where that URL does not end in a slash.
pub webhook_urls_agree :
    {W : Type 0} (http : Http W) (decode : String → Result ApiResponse) (rt : Router W)
    (id : String)
    → Telegram.webhook_url (Telegram.new http decode rt.public_base_url) id
        ≡ Registration.webhook_url rt id
      ↔ ¬ EndsInSlash rt.public_base_url
unfolding Telegram.new
webhook_urls_agree http decode rt id =
    let u = rt.public_base_url in
    (
      λ e. trim_right-fixed u (append_cancel_right (trim_right u) u ("/tg/" <> id) e),
      λ h. ap (λ s. s <> "/tg/" <> id) (trim_right-fixes u h),
    )
