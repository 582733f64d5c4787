-- ===== src/Bench/Harness/Exit.antt =====
-- The exit code of harness_emit.py.
use mathlib.Core.List.{map-id}
use lidb.Base.{
  ℕ, ◌≡◌, ◌↔◌, inl, inr, refl, sym, ap, ◌∙◌, true, false, List, [], ◌∷◌, ◌++◌, map, Option, none,
  some, Outcome, ok, traverse, Ensures, Ensures-bind, of_Ensures, arith, Bool-cases,
}
use lidb.Str.{Text, codes, ◌==◌, ==_iff}
use lidb.Dict.{lookup, keys, elem}
use lidb.Dict.Laws.{lookup-put}
use lidb.Errors.{Error}
use lidb.Json.{Json, obj, arr}
use lidb.Liorm.Audit.{without}
use lidb.Bench.Harness.{
  Scenario, status_of, has_status, Status, status_code, failing, stubbed, passing, unknown,
  status_from, hashable, tier_status, set_default, no_engines, set_engine, move_lidb, with_engines,
  build_payload, emit,
}
use lidb.Bench.Harness.Verdict.{status_from_iff}

lookup-without :
    (k j : Text) (s : Scenario) → (j == k) ≡ false → lookup k (without j s) ≡ lookup k s
unfolding lookup without
lookup-without k j [] d = refl
lookup-without k j ((i, v) ∷ s) d =
    ground (arith, ==_iff i j, ==_iff i k, ==_iff j k, lookup-without k j s d)

lookup-snoc :
    (k j : Text) (v : Json) (s : Scenario)
    → (j == k) ≡ false
    → lookup k (s ++ (j, v) ∷ []) ≡ lookup k s
unfolding lookup
lookup-snoc k j v [] d = rw d refl
lookup-snoc k j v ((i, w) ∷ s) d = ground (arith, lookup-snoc k j v s d)

lookup-set_default :
    (k j : Text) (v : Json) (s : Scenario)
    → (j == k) ≡ false
    → lookup k (set_default j v s) ≡ lookup k s
unfolding set_default
lookup-set_default k j v s d = elim (Bool-cases (elem j (keys s))) [
  | inl e ↦ rw e refl
  | inr e ↦ rw e (lookup-snoc k j v s d)
]

-- A scenario with its status.
abbrev HasStatus : Option Json → Scenario → Type 0
HasStatus x s = status_of s ≡ x

set_engine-HasStatus :
    (x : Option Json) (lidb : Json) (o : Option Json) (s : Scenario)
    → HasStatus x s
    → Ensures (HasStatus x) (set_engine lidb o s)
unfolding set_engine ◌==◌
set_engine-HasStatus x lidb (some (obj engines)) s h =
    lookup-put (codes "engines") (codes "status") _ s ∙ h
set_engine-HasStatus x lidb none s h = tt
set_engine-HasStatus x lidb (some _) s h = tt

move_lidb-HasStatus :
    (x : Option Json) (o : Option Json) (s : Scenario)
    → HasStatus x s
    → Ensures (HasStatus x) (move_lidb o s)
unfolding ◌==◌
move_lidb-HasStatus x none s h = h
move_lidb-HasStatus x (some lidb) s h =
    set_engine-HasStatus x lidb _ (without (codes "lidb") s)
      (lookup-without (codes "status") (codes "lidb") s refl ∙ h)

-- The engines do not touch the status.
with_engines-HasStatus : (s : Scenario) → Ensures (HasStatus (status_of s)) (with_engines s)
unfolding with_engines ◌==◌
with_engines-HasStatus s =
    let s' = set_default (codes "engines") no_engines s in
    move_lidb-HasStatus (status_of s) (lookup (codes "lidb") s') s'
      (lookup-set_default (codes "status") (codes "engines") no_engines s refl)

hashable-same : (x : Option Json) → Ensures (λ y. y ≡ x) (hashable x)
hashable-same none = refl
hashable-same (some (arr _)) = tt
hashable-same (some (obj _)) = tt
hashable-same (some _) = refl

-- A loop whose body keeps what `g` shows of an element as `f` shows it.
traverse-map :
    {A B C : Type 0} (f : A → C) (g : B → C) (body : A → Outcome Error B)
    → ((a : A) → Ensures (λ b. g b ≡ f a) (body a))
    → (xs : List A) → Ensures (λ bs. map g bs ≡ map f xs) (traverse body xs)
traverse-map f g body h [] = refl
traverse-map f g body h (a ∷ xs) =
    Ensures-bind (λ b. g b ≡ f a) (λ bs. map g bs ≡ map f (a ∷ xs)) (body a) _ (h a)
      λ b p.
        Ensures-bind (λ bs. map g bs ≡ map f xs) (λ bs. map g bs ≡ map f (a ∷ xs))
          (traverse body xs) _ (traverse-map f g body h xs) λ bs q. cc (p, q)

-- The verdict is the one on the statuses that the scenarios came with.
tier_status-statuses :
    (scenarios : List Scenario)
    → Ensures (λ st. st ≡ status_from (map status_of scenarios)) (tier_status scenarios)
unfolding tier_status
tier_status-statuses scenarios =
    Ensures-bind (λ xs. map (λ (x : Option Json). x) xs ≡ map status_of scenarios)
      (λ st. st ≡ status_from (map status_of scenarios))
      (traverse (λ s. hashable (status_of s)) scenarios) _
      (traverse-map status_of (λ x. x) (λ s. hashable (status_of s))
        (λ s. hashable-same (status_of s)) scenarios)
      (λ xs p. ap status_from (sym (map-id xs) ∙ p))

build_payload-status :
    (generated_at tier profile version : Text) (scenarios : List Scenario)
    → Ensures
        (λ (r : Status × Json). r.0 ≡ status_from (map status_of scenarios))
        (build_payload generated_at tier profile version scenarios)
unfolding build_payload
build_payload-status generated_at tier profile version scenarios =
    Ensures-bind (λ moved. map status_of moved ≡ map status_of scenarios) _
      (traverse with_engines scenarios) _
      (traverse-map status_of status_of with_engines with_engines-HasStatus scenarios)
      λ moved p.
        Ensures-bind (λ st. st ≡ status_from (map status_of moved)) _ (tier_status moved) _
          (tier_status-statuses moved) (λ st q. q ∙ ap status_from p)

-- The exit code of a status.
code_iff : (st : Status) → (status_code st ≡ 1) ↔ (st ≡ failing)
unfolding ◌==◌
code_iff failing = (λ _. refl, λ _. refl)
code_iff stubbed = (λ h. cc h, λ h. cc h)
code_iff passing = (λ h. cc h, λ h. cc h)
code_iff unknown = (λ h. cc h, λ h. cc h)

-- A run that writes its payload exits with 1 exactly when one of the scenarios that it was given has
-- the status red, whatever their engines are.
pub emit-red :
    (generated_at tier profile version : Text) (scenarios : List Scenario) {code : ℕ}
    {payload : Json}
    → emit generated_at tier profile version scenarios ≡ ok (code, payload)
    → (code ≡ 1) ↔ (has_status (codes "red") (map status_of scenarios) ≡ true)
unfolding emit
emit-red generated_at tier profile version scenarios h =
    of_Ensures
      (λ (r : ℕ × Json). (r.0 ≡ 1) ↔ (has_status (codes "red") (map status_of scenarios) ≡ true))
      (emit generated_at tier profile version scenarios)
      (Ensures-bind (λ (r : Status × Json). r.0 ≡ status_from (map status_of scenarios)) _
        (build_payload generated_at tier profile version scenarios) _
        (build_payload-status generated_at tier profile version scenarios)
        (λ r p. ground (arith, code_iff r.0, p, (status_from_iff (map status_of scenarios)).0)))
      h
