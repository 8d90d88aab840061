-- ===== src/Dispatch/Registry.antt =====
-- The seat registry of examples/swarm-dispatch.py: the frozen fleet, the index of name forms and
-- the resolution of a name.
pub mod Names
pub mod Fleet
use asbury_solutions_system.Common.{
  ℕ, Option, none, some, List, [], ◌∷◌, String, if◌then◌else◌, ◌==◌, map,
}
use asbury_solutions_system.Common.Text.{Text, codes, strip, lower, eq_text, elem}

-- A role is shown to people only, and no code reads it.
pub record Seat : Type 0 where
  pub slug : Text
  pub role : String
  pub aliases : List Text

abbrev pub seat : String → String → Seat
seat slug role = record { slug = codes slug; role = role; aliases = [] }

unfoldable pub fleet : List Seat
fleet =
    seat "chief-executive" "Strategy and final decisions"
    ∷ seat "liaison" "External communications — the front door"
    ∷ seat "business-ops" "Proposals and bookkeeping"
    ∷ seat "sales-pipeline" "Pipeline and forecasting"
    ∷ seat "engineering" "Full-stack application code"
    ∷ seat "devops" "Pipelines, deployment, security"
    ∷ seat "service-health" "Monitoring, watchdog, quality gates"
    ∷ seat "research" "Deep sourced research"
    ∷ seat "marketing" "Go-to-market and campaigns"
    ∷ seat "creative-direction" "Brand system and design"
    ∷ seat "personal-assistant" "Scheduling and coordination"
    ∷ seat "operations" "Hygiene and mechanical tasks"
    ∷ seat "automation" "Workflow graphs and non-LLM automation"
    ∷ seat "data-analytics" "Databases, reporting, analysis"
    ∷ seat "platform-ops" "Kernel, scheduler, task ledger"
    ∷ []

abbrev pub not_seats : List Text
not_seats = codes "default" ∷ codes "shared" ∷ []

-- `slug.replace("-", "_")`.
unfoldable pub underscored : Text → Text
underscored = map (λ c. if c == b'-' then b'_' else c)

-- A dictionary from names to seats. An assignment to a key hides the older one.
abbrev pub Index : Type 0
Index = List (Text × Seat)

unfoldable pub find : Text → Index → Option Seat
find k [] = none
find k ((j, s) ∷ rest) = if eq_text j k then some s else find k rest

-- The forms of its name under which a seat is filed.
unfoldable pub keys : Seat → List Text
keys s = s.slug ∷ underscored s.slug ∷ s.aliases

unfoldable pub add_keys : Seat → List Text → Index → Index
add_keys s [] idx = idx
add_keys s (k ∷ ks) idx = add_keys s ks ((lower k, s) ∷ (k, s) ∷ idx)

unfoldable pub add_seats : List Seat → Index → Index
add_seats [] idx = idx
add_seats (s ∷ ss) idx = add_seats ss (add_keys s (keys s) idx)

unfoldable pub build_index : List Seat → Index
build_index seats = add_seats seats []

unfoldable pub or_find : Option Seat → Option Seat → Option Seat
or_find (some s) other = some s
or_find none other = other

-- `resolve_seat` over any roster; `not name` is the test for the empty text.
unfoldable pub resolve_in : List Seat → Text → Option Seat
resolve_in seats [] = none
resolve_in seats (c ∷ cs) =
    let raw = strip (c ∷ cs) in
    let index = build_index seats in
    if elem (lower raw) not_seats then none else or_find (find raw index) (find (lower raw) index)

unfoldable pub resolve_seat : Text → Option Seat
resolve_seat name = resolve_in fleet name
