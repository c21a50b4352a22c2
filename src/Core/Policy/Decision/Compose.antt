-- ===== src/Core/Policy/Decision/Compose.antt =====
-- policy.js: `composeDecisions` and the order of the decisions.
use mathlib.Core.List.{Permᴰ}
use bitgate.Base.{
  ℕ, ◌+◌, ◌≡◌, refl, sym, ap, ◌∙◌, Bool, false, ◌&&◌, Option, none, some, List, [], ◌∷◌, arith, All,
}
use bitgate.Core.Policy.Effects.{
  Dimension, ranking, visibility, interaction, transaction, Effect, effect_eq, Effect-discrete,
  index_of, effect_severity, max_effect, normal, allow,
}
use bitgate.Core.Policy.Effects.Order.{
  IsEffect, max_effect_comm, max_effect_assoc, max_effect-IsEffect, max_effect_bottom,
}
use bitgate.Core.Policy.Decision.{
  GovernanceDecision, create_neutral_decision, joined_transaction, compose_step, compose_from,
  compose_decisions,
}

-- What a decision says in the four dimensions.
pub record Dimensions : Type 0 where
  pub ranking : Effect
  pub weight : ℕ
  pub visibility : Effect
  pub overridable : Bool
  pub interaction : Effect
  pub transaction : Option Effect

abbrev pub dimensions_of : GovernanceDecision → Dimensions
dimensions_of d = record {
  ranking = d.ranking;
  weight = d.weight;
  visibility = d.visibility;
  overridable = d.overridable;
  interaction = d.interaction;
  transaction = d.transaction;
}

abbrev pub IsTransaction : Option Effect → Type 0
IsTransaction none = Unit
IsTransaction (some e) = IsEffect transaction e

-- Every effect is on the ladder of its dimension.
pub record OnLadders (d : Dimensions) : Type 0 where
  pub ranking : IsEffect ranking d.ranking
  pub visibility : IsEffect visibility d.visibility
  pub interaction : IsEffect interaction d.interaction
  pub transaction : IsTransaction d.transaction

join : Dimensions → Dimensions → Dimensions
join a b = record {
  ranking = max_effect ranking a.ranking b.ranking;
  weight = a.weight + b.weight;
  visibility = max_effect visibility a.visibility b.visibility;
  overridable = a.overridable && b.overridable;
  interaction = max_effect interaction a.interaction b.interaction;
  transaction = joined_transaction a.transaction b.transaction;
}

IsTransaction-valid :
    (a b : Option Effect)
    → IsTransaction a
    → IsTransaction b
    → IsTransaction (joined_transaction a b)
IsTransaction-valid a none ha hb = ha
IsTransaction-valid none (some y) ha hb = hb
IsTransaction-valid (some x) (some y) ha hb = max_effect-IsEffect transaction x y ha hb

OnLadders-join : (a b : Dimensions) → OnLadders a → OnLadders b → OnLadders (join a b)
unfolding join
OnLadders-join a b ha hb = record {
  ranking = max_effect-IsEffect ranking a.ranking b.ranking ha.ranking hb.ranking;
  visibility = max_effect-IsEffect visibility a.visibility b.visibility ha.visibility hb.visibility;
  interaction =
      max_effect-IsEffect interaction a.interaction b.interaction ha.interaction hb.interaction;
  transaction = IsTransaction-valid a.transaction b.transaction ha.transaction hb.transaction;
}

max_swap :
    (d : Dimension) (a b c : Effect)
    → IsEffect d b
    → IsEffect d c
    → max_effect d (max_effect d a b) c ≡ max_effect d (max_effect d a c) b
max_swap d a b c hb hc =
    max_effect_assoc d a b c
    ∙ ap (max_effect d a) (max_effect_comm d b c hb hc)
    ∙ sym (max_effect_assoc d a c b)

transaction_swap :
    (a b c : Option Effect)
    → IsTransaction b
    → IsTransaction c
    → joined_transaction (joined_transaction a b) c ≡ joined_transaction (joined_transaction a c) b
transaction_swap none none none hb hc = refl
transaction_swap none none (some z) hb hc = refl
transaction_swap none (some y) none hb hc = refl
transaction_swap none (some y) (some z) hb hc = ap some (max_effect_comm transaction y z hb hc)
transaction_swap (some x) none none hb hc = refl
transaction_swap (some x) none (some z) hb hc = refl
transaction_swap (some x) (some y) none hb hc = refl
transaction_swap (some x) (some y) (some z) hb hc = ap some (max_swap transaction x y z hb hc)

join_swap : (a b c : Dimensions) → OnLadders b → OnLadders c → join (join a b) c ≡ join (join a c) b
unfolding join
join_swap a b c hb hc = ground (
  arith,
  max_swap ranking a.ranking b.ranking c.ranking hb.ranking hc.ranking,
  max_swap visibility a.visibility b.visibility c.visibility hb.visibility hc.visibility,
  max_swap interaction a.interaction b.interaction c.interaction hb.interaction hc.interaction,
  transaction_swap a.transaction b.transaction c.transaction hb.transaction hc.transaction,
)

fold_join : Dimensions → List GovernanceDecision → Dimensions
fold_join a [] = a
fold_join a (d ∷ ds) = fold_join (join a (dimensions_of d)) ds

abbrev pub AllOnLadders : List GovernanceDecision → Type 0
AllOnLadders ds = All (λ d. OnLadders (dimensions_of d)) ds

AllOnLadders-perm :
    {ds es : List GovernanceDecision} → Permᴰ ds es → AllOnLadders ds → AllOnLadders es
AllOnLadders-perm Permᴰ.nil h = tt
AllOnLadders-perm (Permᴰ.cons e p) h = (rw (← e) h.0, AllOnLadders-perm p h.1)
AllOnLadders-perm (Permᴰ.swap e f) h = (rw (← f) h.1.0, (rw (← e) h.0, h.1.1))
AllOnLadders-perm (Permᴰ.trans p q) h = AllOnLadders-perm q (AllOnLadders-perm p h)

fold_join-perm :
    (a : Dimensions) {ds es : List GovernanceDecision}
    → Permᴰ ds es
    → AllOnLadders ds
    → fold_join a ds ≡ fold_join a es
unfolding fold_join
fold_join-perm a Permᴰ.nil h = refl
fold_join-perm a (Permᴰ.cons {b} {l₂} e p) h =
    fold_join-perm (join a _) p h.1 ∙ ap (λ d. fold_join (join a (dimensions_of d)) l₂) e
fold_join-perm a (Permᴰ.swap {a = x} {b = y} {a' = u} {b' = v} {l} e f) h =
    ap (λ t. fold_join t l) (join_swap a (dimensions_of x) (dimensions_of y) h.0 h.1.0)
    ∙ ap (λ d. fold_join (join (join a (dimensions_of d)) (dimensions_of x)) l) f
    ∙ ap (λ d. fold_join (join (join a (dimensions_of u)) (dimensions_of d)) l) e
fold_join-perm a (Permᴰ.trans p q) h =
    fold_join-perm a p h ∙ fold_join-perm a q (AllOnLadders-perm p h)

dimensions-compose_from :
    (c : GovernanceDecision) (ds : List GovernanceDecision)
    → dimensions_of (compose_from c ds) ≡ fold_join (dimensions_of c) ds
unfolding compose_from fold_join compose_step join
dimensions-compose_from c [] = refl
dimensions-compose_from c (d ∷ ds) = dimensions-compose_from (compose_step c d) ds

neutral : Dimensions
neutral = dimensions_of (create_neutral_decision [] none false)

join-neutral : (a : Dimensions) → OnLadders a → join neutral a ≡ a
unfolding join neutral effect_severity index_of Effect-discrete
join-neutral a h = ground (
  arith,
  max_effect_bottom ranking normal a.ranking refl h.ranking,
  max_effect_bottom visibility allow a.visibility refl h.visibility,
  max_effect_bottom interaction allow a.interaction refl h.interaction,
)

-- Composing is joining all decisions to the neutral one.
dimensions-compose_decisions :
    (ds : List GovernanceDecision)
    → AllOnLadders ds
    → dimensions_of (compose_decisions ds) ≡ fold_join neutral ds
unfolding compose_decisions neutral fold_join
dimensions-compose_decisions [] h = refl
dimensions-compose_decisions (d ∷ ds) h =
    dimensions-compose_from d ds
    ∙ ap (λ a. fold_join a ds) (sym (join-neutral (dimensions_of d) h.0))

-- Whatever the order of the decisions, the composed decision says the same in every dimension: the
-- same effects, the same weight and the same flag, if all effects given are on their ladders.
pub compose_decisions-perm :
    (ds es : List GovernanceDecision)
    → Permᴰ ds es
    → AllOnLadders ds
    → dimensions_of (compose_decisions ds) ≡ dimensions_of (compose_decisions es)
compose_decisions-perm ds es p h =
    dimensions-compose_decisions ds h
    ∙ fold_join-perm neutral p h
    ∙ sym (dimensions-compose_decisions es (AllOnLadders-perm p h))
