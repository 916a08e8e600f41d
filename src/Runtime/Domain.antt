-- ===== src/Runtime/Domain.antt =====
-- The records of the access graph. The types are permesh_core's; their fields and variants are
-- those that crates/native-runtime/src/records.rs and the providers' records.rs write out.
pub mod Keys
use permesh_providers.Shared.{String, Bool, List, Option}

pub data Capability : Type 0 where
  accounts identities resources groups memberships grants : Capability

pub data IdentityKind : Type 0 where
  human service bot unknown : IdentityKind

pub data IdentityStatus : Type 0 where
  active inactive suspended unknown : IdentityStatus

pub data Affiliation : Type 0 where
  internal external unknown : Affiliation

pub data EvidenceKind : Type 0 where
  permission assignment policy_attachment unknown : EvidenceKind

pub data Privilege : Type 0 where
  standard elevated admin owner unknown : Privilege

pub data Certainty : Type 0 where
  observed derived inferred unknown : Certainty

pub record EntityKey : Type 0 where
  pub provider : String
  pub id : String

pub data Subject : Type 0 where
  account group : EntityKey → Subject

pub record Provenance : Type 0 where
  pub method : String
  pub observed_at : String

pub record Account : Type 0 where
  pub key : EntityKey
  pub login : String
  pub kind : IdentityKind
  pub affiliation : Affiliation
  pub status : IdentityStatus
  pub verified_emails : List String

pub record Identity : Type 0 where
  pub id : String
  pub kind : IdentityKind
  pub affiliation : Affiliation
  pub status : IdentityStatus
  pub verified_emails : List String

pub record Resource : Type 0 where
  pub key : EntityKey
  pub name : String
  pub kind : Option String
  pub parent : Option EntityKey

pub record Group : Type 0 where
  pub key : EntityKey
  pub name : String

pub record Membership : Type 0 where
  pub member : Subject
  pub group : EntityKey
  pub provenance : Provenance

pub record Grant : Type 0 where
  pub id : String
  pub subject : Subject
  pub resource : EntityKey
  pub role : String
  pub privilege : Privilege
  pub certainty : Certainty
  pub evidence_kind : EvidenceKind
  pub provenance : Provenance

pub record Snapshot : Type 0 where
  pub provider : String
  pub complete : Bool
  pub limitations : List String
  pub accounts : List Account
  pub identities : List Identity
  pub resources : List Resource
  pub groups : List Group
  pub memberships : List Membership
  pub grants : List Grant
