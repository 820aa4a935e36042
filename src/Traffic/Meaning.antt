-- ===== src/Traffic/Meaning.antt =====
-- packages/core/src/system/traffic-filter.ts: what a policy means for a request, and that its compiled
-- rules decide so. A firewall tries the rules in their order and takes the first that matches.
use ecs_dev_desktop.Common.{
  ℕ, String, Bool, true, false, not, ◌&&◌, ◌||◌, Option, none, some, List, [], ◌∷◌, ◌++◌, ◌==◌, ◌≡◌,
  refl, sym, ap, ◌∙◌, inl, inr, nat_eq, string_eq, leb, includes, sort_by, insert_by, if◌then◌else◌,
  Bool-cases,
}
use ecs_dev_desktop.Traffic.{
  FilterMode, block, TrafficFilterPolicy, CompiledRule, ip, geo, asn, managed_anonymous,
  CompiledTrafficFilter, network_preset_asns, preset_values, values_by, inherited_keys, set_add,
  add_all, add_values, add_presets, sorted_set, effective_asns, push_if, other, is_empty,
}

abbrev pub any : {A : Type 0} → (A → Bool) → List A → Bool
any p [] = false
any p (x ∷ xs) = p x || any p xs

-- What the firewall knows of a request.
pub record Request : Type 0 where
  pub is_in : String → Bool
  pub country : String
  pub network : ℕ
  pub is_anonymous : Bool

abbrev pub matches : CompiledRule → Request → Bool
matches (ip action cidrs) r = any r.is_in cidrs
matches (geo action countries) r = includes countries r.country
matches (asn action asns) r = includes asns r.network
matches managed_anonymous r = r.is_anonymous

abbrev pub action_of : CompiledRule → FilterMode
action_of (ip action cidrs) = action
action_of (geo action countries) = action
action_of (asn action asns) = action
action_of managed_anonymous = block

abbrev pub first_match : List CompiledRule → FilterMode → Request → FilterMode
first_match [] default r = default
first_match (rule ∷ rules) default r =
    let rest = first_match rules default r in if matches rule r then action_of rule else rest

abbrev pub decides : CompiledTrafficFilter → Request → FilterMode
decides c r = first_match c.rules c.default_action r

abbrev pub has_by : Option (List ℕ) → ℕ → Bool
has_by none m = false
has_by (some ns) m = includes ns m

abbrev pub preset_has : ℕ → String → Bool
preset_has n p = has_by (network_preset_asns p) n

-- The policy lists the request's address, its country, or its network, by number or in a preset.
abbrev pub lists : TrafficFilterPolicy → Request → Bool
lists p r =
    any r.is_in p.cidrs
    || (includes p.countries r.country
        || (includes p.asns r.network || any (preset_has r.network) p.presets))

abbrev pub listed_decision : FilterMode → Bool → FilterMode
listed_decision mode true = mode
listed_decision mode false = other mode

abbrev pub meaning : TrafficFilterPolicy → Request → FilterMode
meaning p r =
    if p.block_anonymous && r.is_anonymous then block else listed_decision p.mode (lists p r)

or_comm : (a b : Bool) → (a || b) ≡ (b || a)
or_comm true true = refl
or_comm true false = refl
or_comm false true = refl
or_comm false false = refl

or_assoc : (a b c : Bool) → ((a || b) || c) ≡ (a || (b || c))
or_assoc true b c = refl
or_assoc false b c = refl

or_false : (a : Bool) → (a || false) ≡ a
or_false true = refl
or_false false = refl

includes-append : (xs : List ℕ) (n m : ℕ) → includes (xs ++ n ∷ []) m ≡ (n == m || includes xs m)
includes-append [] n m = refl
includes-append (x ∷ xs) n m =
    ap (λ b. x == m || b) (includes-append xs n m)
    ∙ sym (or_assoc (x == m) (n == m) (includes xs m))
    ∙ ap (λ b. b || includes xs m) (or_comm (x == m) (n == m))
    ∙ or_assoc (n == m) (x == m) (includes xs m)

set_add-includes :
    (n : ℕ) (set : List ℕ) (m : ℕ) → includes (set_add n set) m ≡ (n == m || includes set m)
set_add-includes n set m = elim (Bool-cases (includes set n)) [
  | inl h ↦ rw h (elim (Bool-cases (n == m)) [
    | inl e ↦ let q = (nat_eq.test_iff n m).0 e in rw (e, ← q) h
    | inr e ↦ rw e refl
  ])
  | inr h ↦ rw h (includes-append set n m)
]

add_all-includes :
    (ns set : List ℕ) (m : ℕ) → includes (add_all ns set) m ≡ (includes ns m || includes set m)
add_all-includes [] set m = refl
add_all-includes (n ∷ ns) set m =
    add_all-includes ns (set_add n set) m
    ∙ ap (λ b. includes ns m || b) (set_add-includes n set m)
    ∙ sym (or_assoc (includes ns m) (n == m) (includes set m))
    ∙ ap (λ b. b || includes set m) (or_comm (includes ns m) (n == m))

insert-includes :
    (x : ℕ) (xs : List ℕ) (m : ℕ) → includes (insert_by (λ n. n) x xs) m ≡ (x == m || includes xs m)
insert-includes x [] m = refl
insert-includes x (y ∷ ys) m = elim (Bool-cases (leb x y)) [
  | inl h ↦ rw h refl
  | inr h ↦ rw h (
      ap (λ b. y == m || b) (insert-includes x ys m)
      ∙ sym (or_assoc (y == m) (x == m) (includes ys m))
      ∙ ap (λ b. b || includes ys m) (or_comm (y == m) (x == m))
      ∙ or_assoc (x == m) (y == m) (includes ys m))
]

sort-includes : (xs : List ℕ) (m : ℕ) → includes (sort_by (λ n. n) xs) m ≡ includes xs m
sort-includes [] m = refl
sort-includes (x ∷ xs) m =
    insert-includes x (sort_by (λ n. n) xs) m ∙ ap (λ b. x == m || b) (sort-includes xs m)

-- A set of networks, unless the loop threw, has just these members.
abbrev pub Has : (ℕ → Bool) → Option (List ℕ) → Type 0
Has members none = Unit
Has members (some set) = (m : ℕ) → includes set m ≡ members m

values_by-Has : (o : Option (List ℕ)) (p : String) → Has (has_by o) (values_by o p)
values_by-Has (some ns) p = λ m. refl
values_by-Has none p = of_key (includes inherited_keys p)
  where
    of_key : (b : Bool) → Has (λ m. false) (if b then none else some [])
    of_key true = tt
    of_key false = λ m. refl

Has-same : (f g : ℕ → Bool) (o : Option (List ℕ)) → ((m : ℕ) → f m ≡ g m) → Has f o → Has g o
Has-same f g none h k = tt
Has-same f g (some set) h k = λ m. k m ∙ h m

preset_values-Has : (p : String) → Has (λ m. preset_has m p) (preset_values p)
preset_values-Has p = values_by-Has (network_preset_asns p) p

add_values-Has :
    (o : Option (List ℕ)) (f g : ℕ → Bool) (set : List ℕ)
    → Has f o
    → Has g (some set)
    → Has (λ m. f m || g m) (add_values o set)
add_values-Has none f g set h k = tt
add_values-Has (some ns) f g set h k =
    λ m. add_all-includes ns set m ∙ ap (λ b. b || includes set m) (h m) ∙ ap (λ b. f m || b) (k m)

add_presets-Has :
    (ps : List String) (o : Option (List ℕ)) (g : ℕ → Bool)
    → Has g o
    → Has (λ m. g m || any (preset_has m) ps) (add_presets ps o)
add_presets-Has [] o g h = Has-same g (λ m. g m || false) o (λ m. sym (or_false (g m))) h
add_presets-Has (p ∷ ps) none g h = tt
add_presets-Has (p ∷ ps) (some set) g h =
    Has-same _ _ (add_presets ps (add_values (preset_values p) set))
      (λ m.
        ap (λ b. b || any (preset_has m) ps) (or_comm (preset_has m p) (g m))
        ∙ or_assoc (g m) (preset_has m p) (any (preset_has m) ps))
      (add_presets-Has ps (add_values (preset_values p) set) (λ m. preset_has m p || g m)
        (add_values-Has (preset_values p) (λ m. preset_has m p) g set (preset_values-Has p) h))

sorted-Has : (o : Option (List ℕ)) (g : ℕ → Bool) → Has g o → Has g (sorted_set o)
sorted-Has none g h = tt
sorted-Has (some set) g h = λ m. sort-includes set m ∙ h m

pub effective_asns-Has :
    (p : TrafficFilterPolicy)
    → Has (λ m. includes p.asns m || any (preset_has m) p.presets) (effective_asns p)
unfolding effective_asns
effective_asns-Has p = sorted-Has (add_presets p.presets (some (add_all p.asns []))) _ (
    add_presets-Has p.presets (some (add_all p.asns [])) (includes p.asns)
      (λ m. add_all-includes p.asns [] m ∙ or_false (includes p.asns m)))

-- A rule that is left out would match nothing.
pub push_if-first :
    (b : Bool) (rule : CompiledRule) (rest : List CompiledRule) (default : FilterMode) (r : Request)
    → (b ≡ false → matches rule r ≡ false)
    → first_match (push_if b rule rest) default r
      ≡ (if matches rule r then action_of rule else first_match rest default r)
push_if-first true rule rest default r h = refl
push_if-first false rule rest default r h = rw (h refl) refl

pub any-empty :
    {A : Type 0} (f : A → Bool) (xs : List A) → not (is_empty xs) ≡ false → any f xs ≡ false
any-empty f [] h = refl
any-empty f (x ∷ xs) h = let q : true ≡ false = h in cc

pub includes-empty :
    (xs : List String) (a : String) → not (is_empty xs) ≡ false → includes xs a ≡ false
includes-empty [] a h = refl
includes-empty (x ∷ xs) a h = let q : true ≡ false = h in cc

pub numbers-empty : (xs : List ℕ) (a : ℕ) → not (is_empty xs) ≡ false → includes xs a ≡ false
numbers-empty [] a h = refl
numbers-empty (x ∷ xs) a h = let q : true ≡ false = h in cc

-- The rule against anonymous sources stands first.
pub anonymous-first :
    (b : Bool) (rest : List CompiledRule) (default : FilterMode) (r : Request)
    → first_match (push_if b managed_anonymous rest) default r
      ≡ (if b && r.is_anonymous then block else first_match rest default r)
anonymous-first true rest default r = refl
anonymous-first false rest default r = refl

pub merge :
    (a b c : Bool) (mode : FilterMode)
    → (if a then mode else (if b then mode else (if c then mode else other mode)))
      ≡ listed_decision mode (a || (b || c))
merge true b c mode = refl
merge false true c mode = refl
merge false false true mode = refl
merge false false false mode = refl
