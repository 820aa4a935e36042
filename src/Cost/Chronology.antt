-- ===== src/Cost/Chronology.antt =====
-- packages/core/src/observability/cost.ts: which events are billed, and in which order.
use ecs_dev_desktop.Common.{
  ℕ, ◌≤◌, ◌≡◌, inl, inr, refl, String, true, false, not, Option, none, some, List, ◌++◌, leb→le,
  or_else, filter, All, Option-cases, if◌then◌else◌, arith, All-sort, All-map, All-filter_test,
  filter-filter, sort_split, up_to,
}
use ecs_dev_desktop.Cost.{AuditEvent, is_within, parsed_within, instant, chronological}

module _ (date_parse : String → Option ℕ) where
  before_cut :
      (cut now : ℕ) (e : AuditEvent)
      → cut ≤ now
      → is_within date_parse none cut e
        ≡ (if is_within date_parse none now e then up_to (instant date_parse) cut e else false)
  before_cut cut now e h = elim (Option-cases (date_parse e.at)) [
    | inl q ↦ rw q refl
    | inr (m, q) ↦ rw q (ground arith)
  ]

  past_cut :
      (cut now : ℕ) (e : AuditEvent)
      → cut ≤ now
      → is_within date_parse (some cut) now e ≡ (
          if is_within date_parse none now e then not (up_to (instant date_parse) cut e) else false)
  past_cut cut now e h = elim (Option-cases (date_parse e.at)) [
    | inl q ↦ rw q refl
    | inr (m, q) ↦ rw q (ground arith)
  ]

  pub chronological-split :
      (cut now : ℕ) (events : List AuditEvent)
      → cut ≤ now
      → chronological date_parse none now events
        ≡ chronological date_parse none cut events ++ chronological date_parse (some cut) now events
  chronological-split cut now events h =
      let key = instant date_parse in
      let known = is_within date_parse none now in
      rw
        (
          filter-filter known (up_to key cut) (is_within date_parse none cut)
              (λ e. before_cut cut now e h) events,
          filter-filter known (λ e. not (up_to key cut e)) (is_within date_parse (some cut) now)
              (λ e. past_cut cut now e h) events,
        )
        (sort_split key cut (filter known events))

  parsed_through :
      (after : Option ℕ) (through : ℕ) (o : Option ℕ)
      → parsed_within date_parse after through o ≡ true
      → or_else o 0 ≤ through
  parsed_through none through (some m) h = leb→le m through h
  parsed_through (some after) through (some m) h = ground arith
  parsed_through after through none h = omega arith

  parsed_past :
      (after through : ℕ) (o : Option ℕ)
      → parsed_within date_parse (some after) through o ≡ true
      → after ≤ or_else o 0
  parsed_past after through (some m) h = ground arith
  parsed_past after through none h = let f : false ≡ true = h in cc

  pub chronological-through :
      (after : Option ℕ) (through : ℕ) (events : List AuditEvent)
      → All (λ e. instant date_parse e ≤ through) (chronological date_parse after through events)
  chronological-through after through events =
      All-sort (instant date_parse) (λ e. instant date_parse e ≤ through)
        (filter (is_within date_parse after through) events)
        (All-map (λ e h. parsed_through after through (date_parse e.at) h)
          (filter (is_within date_parse after through) events)
          (All-filter_test (is_within date_parse after through) events))

  pub chronological-past :
      (after through : ℕ) (events : List AuditEvent)
      → All
          (λ e. after ≤ instant date_parse e)
          (chronological date_parse (some after) through events)
  chronological-past after through events =
      All-sort (instant date_parse) (λ e. after ≤ instant date_parse e)
        (filter (is_within date_parse (some after) through) events)
        (All-map (λ e h. parsed_past after through (date_parse e.at) h)
          (filter (is_within date_parse (some after) through) events)
          (All-filter_test (is_within date_parse (some after) through) events))
