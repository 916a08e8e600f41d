-- ===== src/Github/Records/Steps.antt =====
-- providers/github/src/records.rs: the operations of the collection as steps, in any order.
use mathlib.Core.Path.{subst}
use permesh_providers.Shared.{◌≡◌, refl, Option, none, some, String, ok, ok_injective, arith}
use permesh_providers.Runtime.Domain.{EntityKey, Subject, Privilege, Snapshot}
use permesh_providers.Runtime.Response.{ProviderError}
use permesh_providers.Github.Fields.{Json}
use permesh_providers.Github.Records.{
  Collection, new, fail, membership, grant, Listing, accept, account, repository, team,
}
use permesh_providers.Github.Records.Sound.{
  IsSound, fail-IsSound, membership-IsSound, grant-IsSound,
}
use permesh_providers.Github.Records.Rows.{
  account-IsSound, repository-IsSound, team-IsSound, accept-IsSound,
}

-- One call of an operation that changes the collection.
pub data Step (json : Json) : Collection → Collection → Type 0 where
  by_fail :
      (endpoint : String) (e : ProviderError) (c : Collection) → Step json c (fail endpoint e c)
  by_accept :
      (endpoint : String) (list : Listing json) (c : Collection)
      → Step json c (accept json endpoint list c).1
  by_account : (v : json.Value) (c : Collection) → Step json c (account json v c).1
  by_repository : (v : json.Value) (c : Collection) → Step json c (repository json v c).1
  by_team : (v : json.Value) (org : String) (c : Collection) → Step json c (team json v org c).1
  by_membership :
      (member : Subject) (group : EntityKey) (method : String) (c : Collection)
      → Step json c (membership member group method c)
  by_grant :
      (subject : Subject) (resource : EntityKey) (role : String) (privilege : Privilege)
      (method : String) (c : Collection)
      → Step json c (grant subject resource role privilege method c)

pub data Steps (json : Json) : Collection → Collection → Type 0 where
  finished : (c : Collection) → Steps json c c
  then_more : (c d e : Collection) → Step json c d → Steps json d e → Steps json c e

module _ (json : Json) where
  Step-IsSound : (c d : Collection) → Step json c d → IsSound c → IsSound d
  Step-IsSound c _ (by_fail endpoint e _) s = fail-IsSound endpoint e c s.separate
  Step-IsSound c _ (by_accept endpoint list _) s = accept-IsSound json endpoint list c s
  Step-IsSound c _ (by_account v _) s = account-IsSound json v c s
  Step-IsSound c _ (by_repository v _) s = repository-IsSound json v c s
  Step-IsSound c _ (by_team v org _) s = team-IsSound json v org c s
  Step-IsSound c _ (by_membership member group method _) s =
      membership-IsSound member group method c s
  Step-IsSound c _ (by_grant subject resource role privilege method _) s =
      grant-IsSound subject resource role privilege method c s

  pub Steps-IsSound : (c d : Collection) → Steps json c d → IsSound c → IsSound d
  Steps-IsSound c _ (finished _) s = s
  Steps-IsSound c e (then_more _ d _ step more) s = Steps-IsSound d e more (Step-IsSound c d step s)

  pub new-IsSound :
      (empty : String → Snapshot) (clock : Option String) (id : String) (c : Collection)
      → new empty clock id ≡ ok c
      → IsSound c
  unfolding new
  new-IsSound empty none id c h = ground arith
  new-IsSound empty (some now) id c h = subst IsSound (ok_injective h) (record {
    separate = record { accounts = tt; resources = tt; groups = tt; grants = tt };
    open_if = λ e. (refl, refl, refl, refl);
  })

  -- Whatever operations are called on a new collection, and in whatever order: every account,
  -- resource, group and grant is kept under its own key, none that is kept is blocked, and while
  -- the snapshot counts as complete nothing is blocked.
  pub new-Steps-IsSound :
      (empty : String → Snapshot) (clock : Option String) (id : String) (c d : Collection)
      → new empty clock id ≡ ok c
      → Steps json c d
      → IsSound d
  new-Steps-IsSound empty clock id c d h steps =
      Steps-IsSound c d steps (new-IsSound empty clock id c h)
