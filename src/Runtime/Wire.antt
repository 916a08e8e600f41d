-- ===== src/Runtime/Wire.antt =====
-- The negotiated wire records of permesh_provider_protocol, with the fields and variants that
-- crates/native-runtime/src/records.rs writes out, and its projection of domain records onto them.
pub mod Faithful
use mathlib.Core.Option
use permesh_providers.Shared.{String, List, Option}
use permesh_providers.Runtime.Domain

pub data Capability : Type 0 where
  accounts identities resources groups memberships grants : Capability

pub data IdentityKind : Type 0 where
  human service bot unknown : IdentityKind

pub data IdentityStatus : Type 0 where
  active inactive suspended unknown : IdentityStatus

pub data Affiliation : Type 0 where
  internal external unknown : Affiliation

pub data EvidenceKind : Type 0 where
  permission assignment policy_attachment unknown : EvidenceKind

pub data Privilege : Type 0 where
  standard elevated admin owner unknown : Privilege

pub data Certainty : Type 0 where
  observed derived inferred unknown : Certainty

pub record EntityKey : Type 0 where
  pub provider : String
  pub id : String

pub data Subject : Type 0 where
  account group : EntityKey → Subject

pub record Provenance : Type 0 where
  pub method : String
  pub observed_at : String

pub record Account : Type 0 where
  pub key : EntityKey
  pub login : String
  pub status : IdentityStatus
  pub kind : IdentityKind
  pub affiliation : Affiliation
  pub verified_emails : List String

pub record Identity : Type 0 where
  pub id : String
  pub kind : IdentityKind
  pub affiliation : Affiliation
  pub status : IdentityStatus
  pub verified_emails : List String

pub record Resource : Type 0 where
  pub key : EntityKey
  pub name : String
  pub kind : Option String
  pub parent : Option EntityKey

pub record Group : Type 0 where
  pub key : EntityKey
  pub name : String

pub record Membership : Type 0 where
  pub member : Subject
  pub group : EntityKey
  pub provenance : Provenance

pub record Grant : Type 0 where
  pub id : String
  pub subject : Subject
  pub resource : EntityKey
  pub role : String
  pub privilege : Privilege
  pub certainty : Certainty
  pub evidence_kind : EvidenceKind
  pub provenance : Provenance

pub data Record : Type 0 where
  account : Account → Record
  identity : Identity → Record
  resource : Resource → Record
  group : Group → Record
  membership : Membership → Record
  grant : Grant → Record

unfoldable pub capability : Domain.Capability → Capability
capability Domain.Capability.accounts = Capability.accounts
capability Domain.Capability.identities = Capability.identities
capability Domain.Capability.resources = Capability.resources
capability Domain.Capability.groups = Capability.groups
capability Domain.Capability.memberships = Capability.memberships
capability Domain.Capability.grants = Capability.grants

unfoldable pub identity_kind : Domain.IdentityKind → IdentityKind
identity_kind Domain.IdentityKind.human = IdentityKind.human
identity_kind Domain.IdentityKind.service = IdentityKind.service
identity_kind Domain.IdentityKind.bot = IdentityKind.bot
identity_kind Domain.IdentityKind.unknown = IdentityKind.unknown

unfoldable pub identity_status : Domain.IdentityStatus → IdentityStatus
identity_status Domain.IdentityStatus.active = IdentityStatus.active
identity_status Domain.IdentityStatus.inactive = IdentityStatus.inactive
identity_status Domain.IdentityStatus.suspended = IdentityStatus.suspended
identity_status Domain.IdentityStatus.unknown = IdentityStatus.unknown

unfoldable pub affiliation_of : Domain.Affiliation → Affiliation
affiliation_of Domain.Affiliation.internal = Affiliation.internal
affiliation_of Domain.Affiliation.external = Affiliation.external
affiliation_of Domain.Affiliation.unknown = Affiliation.unknown

unfoldable pub evidence_kind_of : Domain.EvidenceKind → EvidenceKind
evidence_kind_of Domain.EvidenceKind.permission = EvidenceKind.permission
evidence_kind_of Domain.EvidenceKind.assignment = EvidenceKind.assignment
evidence_kind_of Domain.EvidenceKind.policy_attachment = EvidenceKind.policy_attachment
evidence_kind_of Domain.EvidenceKind.unknown = EvidenceKind.unknown

unfoldable pub privilege_of : Domain.Privilege → Privilege
privilege_of Domain.Privilege.standard = Privilege.standard
privilege_of Domain.Privilege.elevated = Privilege.elevated
privilege_of Domain.Privilege.admin = Privilege.admin
privilege_of Domain.Privilege.owner = Privilege.owner
privilege_of Domain.Privilege.unknown = Privilege.unknown

unfoldable pub certainty_of : Domain.Certainty → Certainty
certainty_of Domain.Certainty.observed = Certainty.observed
certainty_of Domain.Certainty.derived = Certainty.derived
certainty_of Domain.Certainty.inferred = Certainty.inferred
certainty_of Domain.Certainty.unknown = Certainty.unknown

unfoldable pub key_of : Domain.EntityKey → EntityKey
key_of k = record { provider = k.provider; id = k.id }

unfoldable pub subject_of : Domain.Subject → Subject
unfolding key_of
subject_of (Domain.Subject.account k) = Subject.account (key_of k)
subject_of (Domain.Subject.group k) = Subject.group (key_of k)

unfoldable pub provenance_of : Domain.Provenance → Provenance
provenance_of p = record { method = p.method; observed_at = p.observed_at }

unfoldable pub account_record : Domain.Account → Record
unfolding key_of identity_status identity_kind affiliation_of
account_record a = Record.account (record {
  key = key_of a.key;
  login = a.login;
  status = identity_status a.status;
  kind = identity_kind a.kind;
  affiliation = affiliation_of a.affiliation;
  verified_emails = a.verified_emails;
})

unfoldable pub identity_record : Domain.Identity → Record
unfolding identity_status identity_kind affiliation_of
identity_record i = Record.identity (record {
  id = i.id;
  kind = identity_kind i.kind;
  affiliation = affiliation_of i.affiliation;
  status = identity_status i.status;
  verified_emails = i.verified_emails;
})

unfoldable pub resource_record : Domain.Resource → Record
unfolding key_of
resource_record r = Record.resource (record {
  key = key_of r.key;
  name = r.name;
  kind = r.kind;
  parent = Option.map key_of r.parent;
})

unfoldable pub group_record : Domain.Group → Record
unfolding key_of
group_record g = Record.group (record { key = key_of g.key; name = g.name })

unfoldable pub membership_record : Domain.Membership → Record
unfolding key_of subject_of provenance_of
membership_record m = Record.membership (record {
  member = subject_of m.member;
  group = key_of m.group;
  provenance = provenance_of m.provenance;
})

unfoldable pub grant_record : Domain.Grant → Record
unfolding key_of subject_of provenance_of privilege_of certainty_of evidence_kind_of
grant_record g = Record.grant (record {
  id = g.id;
  subject = subject_of g.subject;
  resource = key_of g.resource;
  role = g.role;
  privilege = privilege_of g.privilege;
  certainty = certainty_of g.certainty;
  evidence_kind = evidence_kind_of g.evidence_kind;
  provenance = provenance_of g.provenance;
})
