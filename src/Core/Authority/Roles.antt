-- ===== src/Core/Authority/Roles.antt =====
-- authority.js: the roles that `createRoleDefinition` accepts.
use bitgate.Base.{
  ◌≡◌, ap, true, false, not, ◌&&◌, Option, none, some, List, [], ◌∷◌, arith, all, is_empty, get_or,
  OkAll, Bool-cases, inl, inr,
}
use bitgate.Base.Text.{Text}
use bitgate.Base.Set.{has, IsUnique, IsUnique-of_list, has-of_list}
use bitgate.Core.Authority.{
  Capability, capability_eq, is_governance_capability, RoleDefinition, name_text,
  create_role_definition,
}

has_of_all :
    (cs : List Capability) (c : Capability)
    → all is_governance_capability cs ≡ true
    → has cs c ≡ true
    → is_governance_capability c ≡ true
unfolding has
has_of_all [] c h k = cc
has_of_all (x ∷ cs) c h k =
    ground (
      arith,
      has_of_all cs c,
      capability_eq.beq_iff x c,
      ap is_governance_capability {x = x} {y = c},
    )

abbrev pub IsRole : Option (List Capability) → RoleDefinition → Type 0
IsRole given role =
    (is_empty role.name ≡ false)
    × IsUnique role.capabilities
    × ((c : Capability) → has role.capabilities c ≡ has (get_or given []) c)
    × ((c : Capability) → (has role.capabilities c && not (is_governance_capability c)) ≡ false)

-- A role that is accepted has a name that is not empty, no capability twice, exactly the
-- capabilities given, and only known ones.
pub create_role_definition-IsRole :
    (name : Option Text) (given : Option (List Capability))
    → OkAll (IsRole given) (create_role_definition name given)
unfolding create_role_definition
create_role_definition-IsRole name none = elim (Bool-cases (is_empty (name_text name))) [
  | inl e ↦ rw e tt
  | inr e ↦ rw e tt
]
create_role_definition-IsRole name (some cs) = elim (Bool-cases (is_empty (name_text name))) [
  | inl e ↦ rw e tt
  | inr e ↦ elim (Bool-cases (all is_governance_capability cs)) [
    | inr n ↦ rw (e, n) tt
    | inl y ↦
        rw (e, y)
          (
            e,
            IsUnique-of_list cs,
            has-of_list cs,
            λ c. ground (arith, has-of_list cs c, has_of_all cs c y),
          )
  ]
]
