-- ===== src/Cost/Sessions.antt =====
-- packages/control-plane/src/cost-service.ts: the sessions of the ledger, with their owners and sizes.
use ecs_dev_desktop.Common.{
  ℕ, String, Bool, true, false, ◌&&◌, ◌||◌, Option, none, some, List, [], ◌∷◌, ◌++◌, ◌==◌, nat_eq,
  string_eq, leb, includes, if◌then◌else◌,
}
use ecs_dev_desktop.Result.{Result, ok, err}
use ecs_dev_desktop.Resources.{WorkspaceResources}
use ecs_dev_desktop.Traffic.{points}
use ecs_dev_desktop.Cost.{AuditEvent}
use ecs_dev_desktop.Cost.Price.{Floats, WorkspaceSizing}

-- The fields of a workspace that the reports read.
pub record WorkspaceDto : Type 0 where
  pub id : String
  pub owner_id : String
  pub state : String
  pub resources : WorkspaceResources

-- `s.startsWith(prefix)`
abbrev pub starts_with : List ℕ → List ℕ → Bool
starts_with [] s = true
starts_with (c ∷ prefix) [] = false
starts_with (c ∷ prefix) (d ∷ s) = d == c && starts_with prefix s

unfoldable pub is_session : AuditEvent → Bool
is_session e = starts_with (points "session.") (points e.action)

-- A map in the order of its insertions.
abbrev pub Sessions : Type 0
Sessions = List (String × List AuditEvent)

abbrev pub add_event : AuditEvent → Sessions → Sessions
add_event e [] = (e.target, e ∷ []) ∷ []
add_event e ((id, events) ∷ sessions) =
    let rest = add_event e sessions in
    if id == e.target then (id, events ++ e ∷ []) ∷ sessions else (id, events) ∷ rest

abbrev pub group_into : List AuditEvent → Sessions → Sessions
group_into [] sessions = sessions
group_into (e ∷ es) sessions =
    group_into es (if is_session e then add_event e sessions else sessions)

unfoldable pub group_sessions : List AuditEvent → Sessions
group_sessions events = group_into events []

-- `byWorkspace.get(id) ?? []`
abbrev pub events_of : String → Sessions → List AuditEvent
events_of id [] = []
events_of id ((k, events) ∷ sessions) =
    let rest = events_of id sessions in if k == id then events else rest

abbrev pub creation : List AuditEvent → Option AuditEvent
creation [] = none
creation (e ∷ es) = let rest = creation es in if e.action == "session.create" then some e else rest

abbrev pub record_owner : Option WorkspaceDto → String
record_owner none = "unknown"
record_owner (some w) = w.owner_id

abbrev pub owner_by : Option AuditEvent → Option WorkspaceDto → String
owner_by none w = record_owner w
owner_by (some created) w = created.actor

abbrev pub owner_of : List AuditEvent → Option WorkspaceDto → String
owner_of events w = owner_by (creation events) w

-- An instant of the clock, as its text and its milliseconds.
pub record Instant : Type 0 where
  pub text : String
  pub ms : ℕ

-- `a.localeCompare(b) < 0` is the argument.
abbrev pub earliest_at : (String → String → Bool) → List AuditEvent → String → String
earliest_at is_before [] earliest = earliest
earliest_at is_before (e ∷ es) earliest =
    earliest_at is_before es (if is_before e.at earliest then e.at else earliest)

-- `new Set([...byWorkspace.keys(), ...records.keys()])`
abbrev pub add_id : List String → String → List String
add_id ids id = if includes ids id then ids else ids ++ id ∷ []

abbrev pub add_records : List WorkspaceDto → List String → List String
add_records [] ids = ids
add_records (w ∷ ws) ids = add_records ws (add_id ids w.id)

abbrev pub session_ids : Sessions → List String
session_ids [] = []
session_ids ((id, events) ∷ sessions) = id ∷ session_ids sessions

abbrev pub ids_of : Sessions → List WorkspaceDto → List String
ids_of sessions workspaces = add_records workspaces (session_ids sessions)

pub data SizingError : Type 0 where
  not_positive no_resources : SizingError

-- `records.get(id)`
abbrev pub record_of : String → List WorkspaceDto → Option WorkspaceDto
record_of id [] = none
record_of id (w ∷ ws) = let rest = record_of id ws in if w.id == id then some w else rest

-- `record?.state`
abbrev pub dto_state : Option WorkspaceDto → Option String
dto_state none = none
dto_state (some w) = some w.state

module _ (n : Floats) where
  abbrev pub resources_to_sizing : WorkspaceResources → Result (WorkspaceSizing n) SizingError
  resources_to_sizing r =
      if leb r.cpu_units 0 || (leb r.memory_mib 0 || leb r.volume_gib 0)
      then err not_positive
      else ok (record {
        vcpu = n.divide (n.of_nat r.cpu_units) (n.of_nat 1024);
        memory_gib = n.divide (n.of_nat r.memory_mib) (n.of_nat 1024);
        volume_gib = n.of_nat r.volume_gib;
      })

  abbrev pub sizing_of_resources :
      Option WorkspaceResources → Result (WorkspaceSizing n) SizingError
  sizing_of_resources none = err no_resources
  sizing_of_resources (some r) = resources_to_sizing r

  abbrev pub sizing_from_create_event : Option AuditEvent → Result (WorkspaceSizing n) SizingError
  sizing_from_create_event none = err no_resources
  sizing_from_create_event (some created) = sizing_of_resources created.resources

  abbrev pub sizing_of :
      List AuditEvent → Option WorkspaceDto → Result (WorkspaceSizing n) SizingError
  sizing_of events none = sizing_from_create_event (creation events)
  sizing_of events (some w) = resources_to_sizing w.resources
