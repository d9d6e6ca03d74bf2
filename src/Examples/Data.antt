-- ===== src/Examples/Data.antt =====
-- A plan of two steps with its specialist, contracts, floor and bundle, and a platform with a clock of few instants.
use bounded_agent_harness.Prelude.{
  ℕ, String, true, none, some, List, [], ◌∷◌, if◌then◌else◌, str_eq, Result, ok, err,
}
use bounded_agent_harness.Json.{
  Value, bool, num, nat, str, arr, obj, Items, nil, cons, Fields, end, field,
}
use bounded_agent_harness.Json.Canonical.{Host}
use bounded_agent_harness.Registry.{Registry, Contract}

abbrev members : List (String × Value) → Fields
members [] = end
members ((k, v) ∷ fs) = field k v (members fs)

abbrev pub object : List (String × Value) → Value
object fs = obj (members fs)

abbrev entries : List Value → Items
entries [] = nil
entries (v ∷ vs) = cons v (entries vs)

abbrev pub array : List Value → Value
array vs = arr (entries vs)

abbrev text_values : List String → List Value
text_values [] = []
text_values (t ∷ ts) = str t ∷ text_values ts

abbrev pub texts : List String → Value
texts ts = array (text_values ts)

abbrev pub number : ℕ → Value
number n = num (nat n)

abbrev pub value_of {ℓ} : {A : Type ℓ} → A → Result A → A
value_of a (ok b) = b
value_of a (err code) = a

abbrev pub some_hash : String
some_hash = "0123456789abcdef0123456789abcdef0123456789abcdef0123456789abcdef"

-- Two instants, with every hash the same.
abbrev pub morning : String
morning = "2030-01-01T08:00:00.000Z"

abbrev pub evening : String
evening = "2030-01-01T20:00:00.000Z"

abbrev pub host : Host
host = record {
  hash = λ s. some_hash;
  parse_date =
      λ s. if str_eq s morning then some 1000 else if str_eq s evening then some 2000 else none;
  iso_text = λ n. evening;
  locale_le = λ a b. true;
}

abbrev pub contract : Contract
contract = record { validator = λ v. ok true; digest = some_hash; portability = "portable" }

abbrev pub registry : Registry
registry = ("in.v1", contract) ∷ ("out.v1", contract) ∷ []

abbrev step : String → List String → String → List (String × Value) → Value
step id depends effect more = object (
    ("id", str id)
    ∷ ("specialist", str "analyst")
    ∷ ("capability", str "analyze")
    ∷ ("authority", str "read")
    ∷ ("dependsOn", texts depends)
    ∷ ("contextProjection", object (projection depends))
    ∷ ("input", object [])
    ∷ ("inputContract", str "in.v1")
    ∷ ("outputContract", str "out.v1")
    ∷ ("costUnits", number 3)
    ∷ ("effect", str effect)
    ∷ more)
  where
    projection : List String → List (String × Value)
    projection [] = []
    projection (d ∷ ds) = (d, texts []) ∷ projection ds

abbrev pub plan : Value
plan = object (
    ("id", str "demo-plan")
    ∷ ("version", number 1)
    ∷ ("objective", str "a report")
    ∷ ("budget", object (("maxCostUnits", number 10) ∷ []))
    ∷ (
      "steps",
      array (step "publish" ("collect" ∷ []) "local" [] ∷ step "collect" [] "read" [] ∷ []),
    )
    ∷ [])

abbrev pub specialists : List Value
specialists =
    object (
      ("id", str "analyst")
      ∷ ("version", number 1)
      ∷ ("description", str "reads")
      ∷ ("strengths", texts [])
      ∷ ("limitations", texts [])
      ∷ ("capabilities", texts ("analyze" ∷ []))
      ∷ ("authority", texts ("read" ∷ []))
      ∷ ("adapter", str "local-adapter")
      ∷ (
        "evidence",
        object (
            ("completedRuns", number 2)
            ∷ ("acceptedOutputs", number 1)
            ∷ ("rejectedOutputs", number 1)
            ∷ []),
      )
      ∷ [])
    ∷ []

abbrev pub floor : Value
floor = object (
    ("format", str "usb.autonomous-floor.v1")
    ∷ ("version", number 1)
    ∷ ("project", str "demo")
    ∷ ("goal", str "a report")
    ∷ ("allowedEffects", texts ("read" ∷ "local-test" ∷ []))
    ∷ ("forbiddenEffects", texts ("deploy" ∷ []))
    ∷ ("requiredReviewRoles", texts ("floor" ∷ []))
    ∷ ("maxCostUnits", number 20)
    ∷ ("timeoutPolicy", object (("forkAfterMinutes", number 30) ∷ ("localOnly", bool true) ∷ []))
    ∷ ("authorityMode", str "NARROW_ONLY")
    ∷ [])

abbrev pub bundle : Value
bundle = object (
    ("version", number 1)
    ∷ (
      "atoms",
      array (
          object (
            ("id", str "contract-review")
            ∷ ("version", number 1)
            ∷ ("statement", str "handoffs satisfy contracts")
            ∷ ("reviewLevel", number 1)
            ∷ ("enforcementPoints", texts ("compile" ∷ "invoke" ∷ []))
            ∷ ("requiredEvidence", texts ("accepted-output" ∷ []))
            ∷ ("blastRadius", str "high")
            ∷ ("humanFloorRequired", bool true)
            ∷ ("authorityMode", str "NARROW_ONLY")
            ∷ ("status", str "ACTIVE")
            ∷ [])
          ∷ []),
    )
    ∷ ("requiredAtomIds", texts ("contract-review" ∷ []))
    ∷ ("authorityMode", str "NARROW_ONLY")
    ∷ [])

abbrev pub evidence : List Value
evidence =
    object (
      ("atomId", str "contract-review")
      ∷ ("kind", str "accepted-output")
      ∷ ("passed", bool true)
      ∷ (
        "workflowDigest",
        str "sha256:0123456789abcdef0123456789abcdef0123456789abcdef0123456789abcdef",
      )
      ∷ ("runId", str "run-1")
      ∷ [])
    ∷ []
