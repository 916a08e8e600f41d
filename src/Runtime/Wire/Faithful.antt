-- ===== src/Runtime/Wire/Faithful.antt =====
-- The projection of records.rs loses nothing: equal wire records come from equal domain records.
use permesh_providers.Shared.{◌≡◌, ap, arith}
use permesh_providers.Runtime.Domain
use permesh_providers.Runtime.Wire
use permesh_providers.Runtime.Wire.{
  account_record, grant_record, membership_record, identity_record, resource_record, group_record,
}

grant_injective : (g h : Domain.Grant) → grant_record g ≡ grant_record h → g ≡ h
unfolding grant_record
grant_injective g h e = ground arith

account_injective : (g h : Domain.Account) → account_record g ≡ account_record h → g ≡ h
unfolding account_record
account_injective g h e = ground arith

membership_injective : (g h : Domain.Membership) → membership_record g ≡ membership_record h → g ≡ h
unfolding membership_record
membership_injective g h e = ground arith

identity_injective : (g h : Domain.Identity) → identity_record g ≡ identity_record h → g ≡ h
unfolding identity_record
identity_injective g h e = ground arith

group_injective : (g h : Domain.Group) → group_record g ≡ group_record h → g ≡ h
unfolding group_record
group_injective g h e = ground arith

resource_injective : (g h : Domain.Resource) → resource_record g ≡ resource_record h → g ≡ h
unfolding resource_record
resource_injective g h e = ground arith

-- Any record of a snapshot.
pub data Entity : Type 0 where
  account : Domain.Account → Entity
  identity : Domain.Identity → Entity
  resource : Domain.Resource → Entity
  group : Domain.Group → Entity
  membership : Domain.Membership → Entity
  grant : Domain.Grant → Entity

abbrev pub project : Entity → Wire.Record
project (account a) = account_record a
project (identity i) = identity_record i
project (resource r) = resource_record r
project (group g) = group_record g
project (membership m) = membership_record m
project (grant g) = grant_record g

-- Two records of a snapshot, of the same kind or of different kinds, whose wire records are equal
-- are equal: no field, no enum value and no kind is lost or merged.
pub project_injective : (x y : Entity) → project x ≡ project y → x ≡ y
unfolding account_record identity_record resource_record group_record membership_record grant_record
project_injective (account a) (account b) e = ap account (account_injective a b e)
project_injective (identity a) (identity b) e = ap identity (identity_injective a b e)
project_injective (resource a) (resource b) e = ap resource (resource_injective a b e)
project_injective (group a) (group b) e = ap group (group_injective a b e)
project_injective (membership a) (membership b) e = ap membership (membership_injective a b e)
project_injective (grant a) (grant b) e = ap grant (grant_injective a b e)
project_injective _ _ e = cc
