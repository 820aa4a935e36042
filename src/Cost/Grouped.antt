-- ===== src/Cost/Grouped.antt =====
-- packages/control-plane/src/cost-service.ts: what the sessions of the ledger have of its events.
use ecs_dev_desktop.Common.{
  String, Bool, true, false, ◌&&◌, List, [], ◌∷◌, ◌++◌, ◌==◌, ◌≡◌, refl, sym, ap, ◌∙◌, string_eq,
  if◌then◌else◌, filter, Bool-cases, inl, inr,
}
use ecs_dev_desktop.Cost.{AuditEvent}
use ecs_dev_desktop.Cost.Sessions.{
  Sessions, is_session, add_event, group_into, group_sessions, events_of,
}

append_nil : (xs : List AuditEvent) → xs ≡ xs ++ []
append_nil [] = refl
append_nil (x ∷ xs) = ap (◌∷◌ x) (append_nil xs)

append_assoc : (xs ys zs : List AuditEvent) → (xs ++ ys) ++ zs ≡ xs ++ (ys ++ zs)
append_assoc [] ys zs = refl
append_assoc (x ∷ xs) ys zs = ap (◌∷◌ x) (append_assoc xs ys zs)

-- The events of a workspace among those of the ledger.
abbrev pub is_of : String → AuditEvent → Bool
is_of id e = is_session e && e.target == id

abbrev one_if : Bool → AuditEvent → List AuditEvent
one_if b e = if b then e ∷ [] else []

differs :
    (id k : String) (e : AuditEvent) → (k == e.target) ≡ false → k ≡ id → (e.target == id) ≡ false
differs id k e h q = elim (Bool-cases (e.target == id)) [
  | inl hit ↦
      let same =
        (string_eq.test_iff k e.target).1 (q ∙ sym ((string_eq.test_iff e.target id).0 hit)) in
      let both : true ≡ false = sym same ∙ h in cc
  | inr no_hit ↦ no_hit
]

add_event-events :
    (id : String) (e : AuditEvent) (sessions : Sessions)
    → events_of id (add_event e sessions) ≡ events_of id sessions ++ one_if (e.target == id) e
add_event-events id e [] = refl
add_event-events id e ((k, es) ∷ sessions) = elim (Bool-cases (k == e.target)) [
  | inl h ↦
      let q = (string_eq.test_iff k e.target).0 h in
      elim (Bool-cases (k == id)) [
        | inl i ↦ rw (h, ← q, i) refl
        | inr i ↦ rw (h, ← q, i) (append_nil (events_of id sessions))
      ]
  | inr h ↦ elim (Bool-cases (k == id)) [
    | inl i ↦
        let q = (string_eq.test_iff k id).0 i in
        let off = differs id k e h q in rw (h, i, off) (append_nil es)
    | inr i ↦ rw (h, i) (add_event-events id e sessions)
  ]
]

group_into-events :
    (id : String) (es : List AuditEvent) (sessions : Sessions)
    → events_of id (group_into es sessions) ≡ events_of id sessions ++ filter (is_of id) es
group_into-events id [] sessions = append_nil (events_of id sessions)
group_into-events id (e ∷ es) sessions = elim (Bool-cases (is_session e)) [
  | inl h ↦ elim (Bool-cases (e.target == id)) [
    | inl t ↦
        rw (h, t)
          (group_into-events id es (add_event e sessions)
            ∙ ap (λ l. l ++ filter (is_of id) es)
                (add_event-events id e sessions ∙ ap (λ b. events_of id sessions ++ one_if b e) t)
            ∙ append_assoc (events_of id sessions) (e ∷ []) (filter (is_of id) es))
    | inr t ↦
        rw (h, t)
          (group_into-events id es (add_event e sessions)
            ∙ ap (λ l. l ++ filter (is_of id) es)
                (add_event-events id e sessions
                  ∙ ap (λ b. events_of id sessions ++ one_if b e) t
                  ∙ sym (append_nil (events_of id sessions))))
  ]
  | inr h ↦ rw h (group_into-events id es sessions)
]

-- The session of a workspace is the list of its session events, in the order of the ledger.
group_sessions-events :
    (id : String) (es : List AuditEvent) → events_of id (group_sessions es) ≡ filter (is_of id) es
unfolding group_sessions
group_sessions-events id es = group_into-events id es []

filter_comm :
    (p q : AuditEvent → Bool) (xs : List AuditEvent)
    → filter p (filter q xs) ≡ filter q (filter p xs)
filter_comm p q [] = refl
filter_comm p q (x ∷ xs) =
    let rest = filter_comm p q xs in
    elim (Bool-cases (p x)) [
      | inl a ↦ elim (Bool-cases (q x)) [
        | inl b ↦ rw (b, a, b) (ap (◌∷◌ x) rest)
        | inr b ↦ rw (a, b) rest
      ]
      | inr a ↦ elim (Bool-cases (q x)) [ inl b ↦ rw (a, b, a) rest | inr b ↦ rw (a, b) rest ]
    ]

pub within_session :
    (within : AuditEvent → Bool) (es fs : List AuditEvent) (id : String)
    → filter within es ≡ filter within fs
    → filter within (events_of id (group_sessions es))
      ≡ filter within (events_of id (group_sessions fs))
within_session within es fs id q =
    ap (filter within) (group_sessions-events id es)
    ∙ filter_comm within (is_of id) es
    ∙ ap (filter (is_of id)) q
    ∙ filter_comm (is_of id) within fs
    ∙ ap (filter within) (sym (group_sessions-events id fs))
