-- ===== src/Core/Authority/Capabilities.antt =====
-- authority.js: who holds which capability.
use bitgate.Base.{◌≡◌, refl, false, not, ◌&&◌, ◌||◌, List, [], ◌∷◌, arith, any, is_empty}
use bitgate.Base.Text.{Text, text_eq}
use bitgate.Base.Set.{has, add_all, has-add_all}
use bitgate.Core.Identifiers.{normalize_pubkey}
use bitgate.Core.Authority.{
  Capability, capability_eq, AuthorityState, is_governance_capability, roles_of, granted_by,
  collect_capabilities, is_root, has_capability,
}

has-collect_capabilities :
    (authority : AuthorityState) (held : List Capability) (roles : List Text) (c : Capability)
    → has (collect_capabilities authority held roles) c
      ≡ (has held c || any (λ role. has (granted_by authority role) c) roles)
unfolding collect_capabilities
has-collect_capabilities authority held [] c = ground arith
has-collect_capabilities authority held (role ∷ roles) c = ground (
  arith,
  has-collect_capabilities authority (add_all held (granted_by authority role)) roles c,
  has-add_all held (granted_by authority role) c,
)

-- A capability is held exactly by the valid pubkeys that are the root, or one of whose roles
-- grants it; what is no known capability is held by nobody.
pub has_capability_lem :
    (pubkey : Text) (c : Capability) (authority : AuthorityState)
    → has_capability pubkey c authority ≡ (
        is_governance_capability c
        && (not (is_empty (normalize_pubkey pubkey))
            && (is_root authority (normalize_pubkey pubkey)
                || any
                    (λ role. has (granted_by authority role) c)
                    (roles_of authority (normalize_pubkey pubkey)))))
unfolding has_capability
has_capability_lem pubkey c authority = ground (
  arith,
  has-collect_capabilities authority [] (roles_of authority (normalize_pubkey pubkey)) c,
  nothing_held c,
)
  where
    nothing_held : (c : Capability) → has [] c ≡ false
    nothing_held c = unfold has in refl
