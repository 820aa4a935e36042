-- ===== src/Traffic/Compiled.antt =====
-- packages/core/src/system/traffic-filter.ts: that the compiled rules of a policy decide
-- as it means, and when there are none.
use ecs_dev_desktop.Common.{
  ℕ, String, Bool, true, false, not, ◌&&◌, ◌||◌, Option, none, some, List, [], ◌∷◌, ◌≡◌, refl, sym,
  ap, subst, ◌∙◌, inl, inr, nat_eq, string_eq, includes, if◌then◌else◌, Bool-cases,
}
use ecs_dev_desktop.Traffic.{
  block, TrafficFilterPolicy, ip, geo, asn, managed_anonymous, Compilation, compiled, invalid,
  type_error, network_preset_asns, preset_values, values_by, inherited_keys, add_all, add_values,
  add_presets, sorted_set, effective_asns, push_if, other, compile_with, match_rules,
  compile_traffic_filter, validate_traffic_filter_policy, is_empty,
}
use ecs_dev_desktop.Traffic.Meaning.{
  Request, any, first_match, decides, lists, listed_decision, meaning, preset_has, Has,
  effective_asns-Has, push_if-first, any-empty, includes-empty, numbers-empty, anonymous-first,
  merge,
}

module _ (p : TrafficFilterPolicy) (r : Request) where
  matches-decide :
      (asns : List ℕ)
      → Has (λ m. includes p.asns m || any (preset_has m) p.presets) (some asns)
      → first_match (match_rules p asns) (other p.mode) r ≡ listed_decision p.mode (lists p r)
  matches-decide asns has =
      let networks = push_if (not (is_empty asns)) (asn p.mode asns) [] in
      let countries = push_if (not (is_empty p.countries)) (geo p.mode p.countries) networks in
      let default = other p.mode in
      push_if-first (not (is_empty p.cidrs)) (ip p.mode p.cidrs) countries default r
        (any-empty r.is_in p.cidrs)
      ∙ ap (λ d. if any r.is_in p.cidrs then p.mode else d)
          (push_if-first (not (is_empty p.countries)) (geo p.mode p.countries) networks default r
              (includes-empty p.countries r.country)
            ∙ ap (λ d. if includes p.countries r.country then p.mode else d)
                (push_if-first (not (is_empty asns)) (asn p.mode asns) [] default r
                  (numbers-empty asns r.network)))
      ∙ merge (any r.is_in p.cidrs) (includes p.countries r.country) (includes asns r.network)
          p.mode
      ∙ ap
          (λ b.
            listed_decision p.mode (any r.is_in p.cidrs || (includes p.countries r.country || b)))
          (has r.network)

  filter-decides :
      (asns : List ℕ)
      → Has (λ m. includes p.asns m || any (preset_has m) p.presets) (some asns)
      → first_match
          (push_if p.block_anonymous managed_anonymous (match_rules p asns))
          (other p.mode)
          r
        ≡ meaning p r
  filter-decides asns has =
      anonymous-first p.block_anonymous (match_rules p asns) (other p.mode) r
      ∙ ap (λ d. if p.block_anonymous && r.is_anonymous then block else d) (matches-decide asns has)

abbrev IsThrown : Option (List ℕ) → List String → Type 0
IsThrown none ps = any (includes inherited_keys) ps ≡ true
IsThrown (some set) ps = Unit

values_by-inherited :
    (o : Option (List ℕ)) (p : String) → values_by o p ≡ none → includes inherited_keys p ≡ true
values_by-inherited (some ns) p e = cc
values_by-inherited none p e = of_key (includes inherited_keys p) e
  where
    of_key : (b : Bool) → (◌≡◌ {A = Option (List ℕ)} (if b then none else some []) none) → b ≡ true
    of_key true e = refl
    of_key false e = cc

none-IsThrown : (ps : List String) → add_presets ps none ≡ none
none-IsThrown [] = refl
none-IsThrown (p ∷ ps) = refl

IsThrown-cons :
    (p : String) (ps : List String) (o : Option (List ℕ)) → IsThrown o ps → IsThrown o (p ∷ ps)
IsThrown-cons p ps (some set) h = tt
IsThrown-cons p ps none h = by_key (includes inherited_keys p)
  where
    by_key : (b : Bool) → (b || any (includes inherited_keys) ps) ≡ true
    by_key true = refl
    by_key false = h

add_presets-IsThrown : (ps : List String) (set : List ℕ) → IsThrown (add_presets ps (some set)) ps
add_presets-IsThrown [] set = tt
add_presets-IsThrown (p ∷ ps) set = by_values (preset_values p) refl (add_presets-IsThrown ps)
  where
    by_values :
        (o : Option (List ℕ))
        → preset_values p ≡ o
        → ((s : List ℕ) → IsThrown (add_presets ps (some s)) ps)
        → IsThrown (add_presets (p ∷ ps) (some set)) (p ∷ ps)
    by_values o e ih =
        subst (λ v. IsThrown (add_presets ps (add_values v set)) (p ∷ ps)) (sym e)
          (of_values o e ih)
      where
        of_values :
            (o : Option (List ℕ))
            → preset_values p ≡ o
            → ((s : List ℕ) → IsThrown (add_presets ps (some s)) ps)
            → IsThrown (add_presets ps (add_values o set)) (p ∷ ps)
        of_values (some ns) e ih =
            IsThrown-cons p ps (add_presets ps (some (add_all ns set))) (ih (add_all ns set))
        of_values none e ih =
            subst (λ v. IsThrown v (p ∷ ps)) (sym (none-IsThrown ps))
              (ap (λ b. b || any (includes inherited_keys) ps)
                (values_by-inherited (network_preset_asns p) p e))

sorted-IsThrown :
    (o : Option (List ℕ)) (ps : List String) → IsThrown o ps → IsThrown (sorted_set o) ps
sorted-IsThrown none ps h = h
sorted-IsThrown (some set) ps h = tt

effective_asns-IsThrown : (p : TrafficFilterPolicy) → IsThrown (effective_asns p) p.presets
unfolding effective_asns
effective_asns-IsThrown p =
    sorted-IsThrown (add_presets p.presets (some (add_all p.asns []))) p.presets
      (add_presets-IsThrown p.presets (add_all p.asns []))

-- What the outcome of a compilation says of the policy.
abbrev pub IsFaithful : TrafficFilterPolicy → Compilation → Type 0
IsFaithful p (compiled c) =
    (validate_traffic_filter_policy p ≡ []) × ((r : Request) → decides c r ≡ meaning p r)
IsFaithful p (invalid issues) =
    (issues ≡ validate_traffic_filter_policy p) × (is_empty issues ≡ false)
IsFaithful p type_error =
    (validate_traffic_filter_policy p ≡ []) × (any (includes inherited_keys) p.presets ≡ true)

compile_with-IsFaithful :
    (p : TrafficFilterPolicy) (o : Option (List ℕ))
    → validate_traffic_filter_policy p ≡ []
    → Has (λ m. includes p.asns m || any (preset_has m) p.presets) o
    → IsThrown o p.presets
    → IsFaithful p (compile_with p o)
compile_with-IsFaithful p none valid has thrown = (valid, thrown)
compile_with-IsFaithful p (some asns) valid has thrown = (valid, λ r. filter-decides p r asns has)

is_empty-nil : {A : Type 0} (xs : List A) → is_empty xs ≡ true → xs ≡ []
is_empty-nil [] h = refl
is_empty-nil (x ∷ xs) h = let f : false ≡ true = h in cc

-- Every policy is either compiled, and then its rules, tried in their order, decide each request as the
-- policy means: anonymous sources are blocked if it says so, listed sources get its mode, and all others
-- the opposite; or it is refused with the issues that its validation finds; or it is valid and names
-- a key that every object inherits as a preset, and then the compilation throws a type error.
pub compile-IsFaithful : (p : TrafficFilterPolicy) → IsFaithful p (compile_traffic_filter p)
unfolding compile_traffic_filter
compile-IsFaithful p = elim (Bool-cases (is_empty (validate_traffic_filter_policy p))) [
  | inl e ↦ rw e (
      compile_with-IsFaithful p (effective_asns p)
        (is_empty-nil (validate_traffic_filter_policy p) e) (effective_asns-Has p)
        (effective_asns-IsThrown p))
  | inr e ↦ rw e (refl, e)
]
