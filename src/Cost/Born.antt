-- ===== src/Cost/Born.antt =====
-- packages/control-plane/src/cost-service.ts: the sessions of a tail that have no row, as the full scan has
-- them.
use ecs_dev_desktop.Common.{
  ℕ, String, Bool, false, Option, none, some, List, [], ◌∷◌, ◌≡◌, refl, ap, ◌∙◌, string_eq,
  includes, if◌then◌else◌, All, Bool-cases, inl, inr,
}
use ecs_dev_desktop.Result.{Result, ok, err}
use ecs_dev_desktop.Cost.{AuditEvent, derive_billing_intervals}
use ecs_dev_desktop.Cost.Price.{
  Floats, Pricing, WorkspaceSizing, SessionCost, CostBreakdown, WorkspaceCostInput, price_sessions,
  push_session, price_intervals,
}
use ecs_dev_desktop.Cost.Ledger.{
  push_rolled, push_input, inputs_of, issues_of, push_issue, price_newborn, price_born, born_issues,
}
use ecs_dev_desktop.Cost.Sessions.{
  WorkspaceDto, Sessions, SizingError, group_sessions, events_of, owner_of, record_of, dto_state,
  sizing_of,
}

module _ (n : Floats) (locale_le : String → String → Bool) (date_parse : String → Option ℕ)
    (to_iso_string : ℕ → String) where
  pub push_same :
      (id owner : String) (sizing : WorkspaceSizing n) (w : Option WorkspaceDto)
      (es : List AuditEvent) (ends : Bool) (cost : Option (CostBreakdown n))
      (rest : Option (List (SessionCost n)))
      → push_rolled n date_parse id owner sizing w ends cost rest
        ≡ push_session n locale_le date_parse to_iso_string
            (record {
              workspace_id = id;
              owner = owner;
              sizing = sizing;
              state = dto_state w;
              events = es;
            })
            none
            ends
            cost
            rest
  push_same id owner sizing w es ends none rest = refl
  push_same id owner sizing w es ends (some cost) none = refl
  push_same id owner sizing w es ends (some cost) (some rest) = refl

  born_as_input :
      (id : String) (w : Option WorkspaceDto) (es : List AuditEvent)
      (x : Result (WorkspaceSizing n) SizingError) (pricing : Pricing n) (now : ℕ)
      (rest : Option (List (SessionCost n))) (inputs : List (WorkspaceCostInput n locale_le))
      → rest ≡ price_sessions n locale_le date_parse to_iso_string inputs pricing now none
      → price_newborn n date_parse id es w x pricing now rest
        ≡ price_sessions n locale_le date_parse to_iso_string
            (push_input n locale_le id (owner_of es w) (dto_state w) es x inputs)
            pricing
            now
            none
  born_as_input id w es (err x) pricing now rest inputs q = q
  born_as_input id w es (ok sizing) pricing now rest inputs q =
      let i = derive_billing_intervals date_parse es now in
      let cost = price_intervals n i pricing sizing in
      push_same id (owner_of es w) sizing w es i.terminated cost rest
      ∙ ap
          (push_session n locale_le date_parse to_iso_string
            (record {
              workspace_id = id;
              owner = owner_of es w;
              sizing = sizing;
              state = dto_state w;
              events = es;
            })
            none i.terminated cost)
          q

  -- The workspaces of a tail that have no row
  abbrev pub born_ids : List String → Sessions → List String
  born_ids rolled [] = []
  born_ids rolled ((id, es) ∷ tail) =
      let rest = born_ids rolled tail in if includes rolled id then rest else id ∷ rest

  -- A workspace that has no row has all its events in the tail.
  abbrev pub IsBorn : List String → List AuditEvent → String × List AuditEvent → Type 0
  IsBorn rolled events (id, es) =
      includes rolled id ≡ false → es ≡ events_of id (group_sessions events)

  pub born_as_inputs :
      (rolled : List String) (events : List AuditEvent) (tail : Sessions) (ws : List WorkspaceDto)
      (pricing : Pricing n) (now : ℕ)
      → All (IsBorn rolled events) tail
      → price_born n date_parse rolled tail ws pricing now
        ≡ price_sessions n locale_le date_parse to_iso_string
            (inputs_of n locale_le (group_sessions events) ws (born_ids rolled tail))
            pricing
            now
            none
  born_as_inputs rolled events [] ws pricing now h = refl
  born_as_inputs rolled events ((id, es) ∷ tail) ws pricing now h =
      let rest = born_as_inputs rolled events tail ws pricing now h.1 in
      let w = record_of id ws in
      let inputs = inputs_of n locale_le (group_sessions events) ws (born_ids rolled tail) in
      elim (Bool-cases (includes rolled id)) [
        | inl a ↦ rw a rest
        | inr a ↦ rw a (
            born_as_input id w es (sizing_of n es w) pricing now
              (price_born n date_parse rolled tail ws pricing now) inputs rest
            ∙ ap
                (λ fs.
                  price_sessions n locale_le date_parse to_iso_string
                    (push_input n locale_le id (owner_of fs w) (dto_state w) fs (sizing_of n fs w)
                      inputs)
                    pricing now none)
                (h.0 a))
      ]

  pub born_issues_as_inputs :
      (rolled : List String) (events : List AuditEvent) (tail : Sessions) (ws : List WorkspaceDto)
      → All (IsBorn rolled events) tail
      → born_issues n rolled tail ws ≡ issues_of n (group_sessions events) ws (born_ids rolled tail)
  born_issues_as_inputs rolled events [] ws h = refl
  born_issues_as_inputs rolled events ((id, es) ∷ tail) ws h =
      let rest = born_issues_as_inputs rolled events tail ws h.1 in
      elim (Bool-cases (includes rolled id)) [
        | inl a ↦ rw a rest
        | inr a ↦ rw a (
            ap (push_issue n id (sizing_of n es (record_of id ws))) rest
            ∙ ap
                (λ fs.
                  push_issue n id (sizing_of n fs (record_of id ws))
                    (issues_of n (group_sessions events) ws (born_ids rolled tail)))
                (h.0 a))
      ]
