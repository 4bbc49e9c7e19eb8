-- ===== src/Cli/Kubectl/Reading.antt =====
-- The arguments of `kubectl exec` read back, as kubectl and wget read them.
use agentic_tenancy.Base.{
  String, ◌<>◌, ◌≡◌, refl, ap, Bool, true, false, ◌&&◌, Option, none, some, List, [], ◌∷◌, ◌==◌,
  string_eq, ==-refl, eq_of_==, Bool-cases, inl, inr, if◌then◌else◌, arith,
}
use agentic_tenancy.Base.Text.{decimal}
use text.Mathlib.TextLemmas.{nil-append, cons-append, append_assoc}
use agentic_tenancy.Cli.Kubectl.{KubectlConfig, build_kubectl_args, url_prefix, wget_options}

-- What is left of the second text after the first.
unfoldable pub strip : String → String → Option String
strip String.[] s = some s
strip (String.◌∷◌ c p) String.[] = none
strip (String.◌∷◌ c p) (String.◌∷◌ d s) =
    let rest = strip p s in if String.◌∷◌ c String.[] == String.◌∷◌ d String.[] then rest else none

strip_lem : (p s : String) → strip p (p <> s) ≡ some s
unfolding strip
strip_lem String.[] s = ap some (nil-append s)
strip_lem (String.◌∷◌ c p) s =
    ground (arith, strip_lem p s, ==-refl (String.◌∷◌ c String.[]), cons-append c p s)

-- Whether two texts have different characters at some place of both.
differs : String → String → Bool
differs String.[] q = false
differs (String.◌∷◌ c p) String.[] = false
differs (String.◌∷◌ c p) (String.◌∷◌ d q) =
    let later = differs p q in
    if String.◌∷◌ c String.[] == String.◌∷◌ d String.[] then later else true

strip-differs : (p q s : String) → differs p q ≡ true → strip p (q <> s) ≡ none
unfolding strip differs
strip-differs String.[] q s h = ground arith
strip-differs (String.◌∷◌ c p) String.[] s h = ground arith
strip-differs (String.◌∷◌ c p) (String.◌∷◌ d q) s h =
    ground (arith, strip-differs p q s, cons-append d q s)

-- The request that wget sends.
pub record Request : Type 0 where
  pub method : String
  pub header : String
  pub body : String
  pub url : String

-- One option of wget, or the URL.
abbrev read_option : String → Request → Request
read_option a r = elim (strip "--method=" a) [
  | some m ↦ record r { method = m }
  | none ↦ elim (strip "--body-data=" a) [
    | some b ↦ record r { body = b }
    | none ↦ elim (strip "--header=" a) [
      | some h ↦ record r { header = h }
      | none ↦ record r { url = a }
    ]
  ]
]

unfoldable pub read_wget : List String → Request → Request
read_wget [] r = r
read_wget (a ∷ rest) r = read_wget rest (read_option a r)

-- Where kubectl runs wget, and what wget sends.
pub record Command : Type 0 where
  pub context : String
  pub namespace : String
  pub deployment : String
  pub request : Request

abbrev blank : Request
blank = record { method = "GET"; header = ""; body = ""; url = "" }

unfoldable pub read_exec : String → List String → Option Command
read_exec context (exec ∷ n ∷ namespace ∷ target ∷ dashes ∷ wget ∷ quiet ∷ options) =
    elim (strip "deployment/" target) [
      | none ↦ none
      | some deployment ↦
          if exec == "exec" && n == "-n" && dashes == "--" && wget == "wget" && quiet == "-qO-"
          then some (record {
            context = context;
            namespace = namespace;
            deployment = deployment;
            request = read_wget options blank;
          })
          else none
    ]
read_exec context _ = none

unfoldable pub read_kubectl : List String → Option Command
read_kubectl [] = none
read_kubectl (flag ∷ []) = none
read_kubectl (flag ∷ context ∷ rest) =
    if flag == "--context" then read_exec context rest else read_exec "" (flag ∷ context ∷ rest)

read_option-method :
    (m : String) (r : Request) → read_option ("--method=" <> m) r ≡ record r { method = m }
read_option-method m r = ground (arith, strip_lem "--method=" m)

read_option-body :
    (b : String) (r : Request) → read_option ("--body-data=" <> b) r ≡ record r { body = b }
unfolding differs
read_option-body b r =
    ground (arith, strip-differs "--method=" "--body-data=" b refl, strip_lem "--body-data=" b)

read_option-url :
    (u : String) (r : Request)
    → read_option ("http://localhost:" <> u) r ≡ record r { url = "http://localhost:" <> u }
unfolding differs
read_option-url u r = ground (
  arith,
  strip-differs "--method=" "http://localhost:" u refl,
  strip-differs "--body-data=" "http://localhost:" u refl,
  strip-differs "--header=" "http://localhost:" u refl,
)

read_option-header :
    (h : String) (r : Request) → read_option ("--header=" <> h) r ≡ record r { header = h }
unfolding differs
read_option-header h r = ground (
  arith,
  strip-differs "--method=" "--header=" h refl,
  strip-differs "--body-data=" "--header=" h refl,
  strip_lem "--header=" h,
)

-- The header that goes with a body.
abbrev pub header_of : String → String
header_of body = if body == "" then "" else "Content-Type: application/json"

abbrev sent : KubectlConfig → String → String → String → Request
sent cfg method path body = record {
  method = method;
  header = header_of body;
  body = body;
  url = url_prefix cfg <> path;
}

wget_options_roundtrip :
    (cfg : KubectlConfig) (method path body : String)
    → read_wget (wget_options cfg method path body) blank ≡ sent cfg method path body
unfolding read_wget differs
wget_options_roundtrip cfg method path body =
    let start : Request = record blank { method = method } in
    let place = decimal cfg.port <> path in
    let first = read_option-method method blank in
    let joined = append_assoc "http://localhost:" (decimal cfg.port) path in
    elim (Bool-cases (body == "")) [
      | inl empty ↦
          let no_body = eq_of_== body "" empty in
          let last = read_option-url place start in ground (arith, first, joined, last, no_body)
      | inr full ↦
          let typed : Request = record start { header = "Content-Type: application/json" } in
          let header = read_option-header "Content-Type: application/json" start in
          let filled = read_option-body body typed in
          let last = read_option-url place (record typed { body = body }) in
          ground (arith, first, joined, last, filled, header)
    ]

-- kubectl and wget, reading the arguments that are built for a call, run in the configured context,
-- namespace and deployment, and send the method, the body and the URL of the call, with a JSON
-- header exactly where there is a body.
pub build_kubectl_args_roundtrip :
    (cfg : KubectlConfig) (method path body : String)
    → read_kubectl (build_kubectl_args cfg method path body)
      ≡ some (record {
        context = cfg.context;
        namespace = cfg.namespace;
        deployment = cfg.deployment;
        request = record {
          method = method;
          header = header_of body;
          body = body;
          url = url_prefix cfg <> path;
        };
      })
unfolding build_kubectl_args read_kubectl read_exec read_wget
build_kubectl_args_roundtrip cfg method path body =
    let options = wget_options_roundtrip cfg method path body in
    let target = strip_lem "deployment/" cfg.deployment in
    elim (Bool-cases (cfg.context == "")) [
      | inl empty ↦
          let no_context = eq_of_== cfg.context "" empty in
          ground (arith, options, target, no_context)
      | inr full ↦ ground (arith, options, target)
    ]
