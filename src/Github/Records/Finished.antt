-- ===== src/Github/Records/Finished.antt =====
-- providers/github/src/records.rs: what a finished snapshot holds.
use permesh_providers.Shared.{◌≡◌, refl, ap, Bool, true, false, not, ◌&&◌, All, All-map, ok, arith}
use permesh_providers.Shared.Map.{has, values}
use permesh_providers.Runtime.Domain.{Subject, Snapshot}
use permesh_providers.Github.Keys.{key_eq, subject_eq}
use permesh_providers.Github.Records.{Collection, valid_subject, gathered, finish}
use permesh_providers.Github.Records.Entries.{values_free, retain-All, retain_everything}
use permesh_providers.Github.Records.Sound.{Accounted, Located, Grouped, IsOpen, IsSound}

-- Nothing in the snapshot speaks of an entity that is blocked.
pub record IsClosed (c : Collection) (s : Snapshot) : Type 0 where
  pub accounts : All (λ a. has a.key c.blocked_accounts ≡ false) s.accounts
  pub resources : All (λ r. has r.key c.blocked_resources ≡ false) s.resources
  pub groups : All (λ g. has g.key c.blocked_groups ≡ false) s.groups
  pub memberships :
      All
        (λ m. (valid_subject c m.member ≡ true) × (has m.group c.blocked_groups ≡ false))
        s.memberships
  pub grants :
      All
        (λ g. (valid_subject c g.subject ≡ true) × (has g.resource c.blocked_resources ≡ false))
        s.grants

both : (b c : Bool) → (b && not c) ≡ true → (b ≡ true) × (c ≡ false)
both b c h = ground arith

gathered-IsClosed : (c : Collection) → IsSound c → IsClosed c (gathered c)
unfolding gathered
gathered-IsClosed c s = record {
  accounts =
      All-map _ _ _ (λ a (k, e, free). rw e free)
        (values_free Accounted c.blocked_accounts c.accounts s.separate.accounts);
  resources =
      All-map _ _ _ (λ r (k, e, free). rw e free)
        (values_free Located c.blocked_resources c.resources s.separate.resources);
  groups =
      All-map _ _ _ (λ g (k, e, free). rw e free)
        (values_free Grouped c.blocked_groups c.groups s.separate.groups);
  memberships =
      All-map _ _ _ (λ m h. both (valid_subject c m.member) (has m.group c.blocked_groups) h)
        (retain-All _ c.memberships);
  grants =
      All-map _ _ _ (λ g h. both (valid_subject c g.subject) (has g.resource c.blocked_resources) h)
        (retain-All _ c.grants);
}

valid_if_open : (c : Collection) (s : Subject) → IsOpen c → valid_subject c s ≡ true
unfolding valid_subject has
valid_if_open c (Subject.account k) (a, r, g, t) = rw a refl
valid_if_open c (Subject.group k) (a, r, g, t) = rw g refl

gathered_whole :
    (c : Collection)
    → IsOpen c
    → ((gathered c).memberships ≡ values c.memberships) × ((gathered c).grants ≡ values c.grants)
unfolding gathered has
gathered_whole c o = (
  ap values (
      retain_everything _ c.memberships
        (λ m. let v = valid_if_open c m.member o in let e = o.2 in rw (v, e) refl)),
  ap values (
      retain_everything _ c.grants
        (λ g. let v = valid_if_open c g.subject o in let e = o.1 in rw (v, e) refl)),
)

complete_lem : (c : Collection) → (gathered c).complete ≡ true → c.snapshot.complete ≡ true
unfolding gathered
complete_lem c e = e

-- A collection that keeps the collection's invariant and finishes with a snapshot counts as a
-- success, and the snapshot is the valid sorted form of one in which no account, resource, group,
-- membership or grant speaks of a blocked entity. If that one counts as complete then nothing was
-- blocked, and every membership and every grant of the collection is in it.
pub finish-IsClosed :
    (sort : Snapshot → Snapshot) (valid : Snapshot → Bool) (c : Collection) (s : Snapshot)
    → IsSound c
    → finish sort valid c ≡ ok s
    → (c.success ≡ true)
      × (s ≡ sort (gathered c))
      × (valid s ≡ true)
      × IsClosed c (gathered c)
      × ((gathered c).complete ≡ true
          → IsOpen c
            × ((gathered c).memberships ≡ values c.memberships)
            × ((gathered c).grants ≡ values c.grants))
unfolding finish
finish-IsClosed sort valid c s sound h = (
  ground arith,
  ground arith,
  ground arith,
  gathered-IsClosed c sound,
  λ e. let o = sound.open_if (complete_lem c e) in let w = gathered_whole c o in (o, w.0, w.1),
)
