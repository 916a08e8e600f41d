-- ===== src/Runtime/Request/Complete.antt =====
-- Every well-formed request is accepted, so `parse` accepts exactly those.
use permesh_providers.Shared.{
  ℕ, ◌≡◌, ◌≤◌, ◌↔◌, true, false, List, Option, none, some, String, arith, ok, ==_iff, ==_refl, inl,
  inr, Option-cases, length, string_eq, leb, le→leb, leb→le,
}
use permesh_providers.Runtime.Limits.{max_frame}
use permesh_providers.Runtime.Sdk.{Sdk, Adapter}
use permesh_providers.Runtime.Request.{
  Contract, is_network_v1, WireRequest, Command, handshake, operation, describe, describe_auth,
  cancel, Request, contract_of, allowed, command_of, later_arms, handshake_of, operation_of,
  is_operation, accept, parse,
}
use permesh_providers.Runtime.Request.Grammar.{Asks, tests, command_sound, allowed_id}

module _ (sdk : Sdk) (a : Adapter sdk) (v : WireRequest sdk a) (c : Contract) where
  command_complete : (k : Command sdk a) → Asks sdk a v c k → command_of sdk a c v ≡ ok k
  unfolding command_of later_arms handshake_of operation_of is_operation
  command_complete (handshake name op net) h = let t = tests sdk a v "handshake" h.0 in ground arith
  command_complete (operation true conf cred net) h =
      let t = tests sdk a v "check" h.0 in ground arith
  command_complete (operation false conf cred net) h =
      let t = tests sdk a v "discover" h.0 in ground arith
  command_complete describe h = let t = tests sdk a v "describe" h.0 in ground arith
  command_complete describe_auth h = let t = tests sdk a v "describe_auth" h.0 in ground arith
  command_complete cancel h = let t = tests sdk a v "cancel" h.0 in ground arith

  allowed_complete :
      (k : Command sdk a) → Asks sdk a v c k → v.id ≡ v.method → allowed sdk a c v ≡ true
  unfolding allowed is_operation is_network_v1
  allowed_complete (handshake name op false) h e =
      let t = tests sdk a v "handshake" h.0 in ground (arith, ==_iff v.id v.method)
  allowed_complete (handshake name op true) h e =
      let t = tests sdk a v "handshake" h.0 in
      ground (arith, ==_iff v.id v.method, ==_refl {A = String} "network_v1")
  allowed_complete (operation true conf cred none) h e =
      let t = tests sdk a v "check" h.0 in ground (arith, ==_iff v.id v.method)
  allowed_complete (operation true conf cred (some n)) h e =
      let t = tests sdk a v "check" h.0 in ground (arith, ==_iff v.id v.method)
  allowed_complete (operation false conf cred none) h e =
      let t = tests sdk a v "discover" h.0 in ground (arith, ==_iff v.id v.method)
  allowed_complete (operation false conf cred (some n)) h e =
      let t = tests sdk a v "discover" h.0 in ground (arith, ==_iff v.id v.method)
  allowed_complete describe h e =
      let t = tests sdk a v "describe" h.0 in ground (arith, ==_iff v.id v.method)
  allowed_complete describe_auth h e =
      let t = tests sdk a v "describe_auth" h.0 in ground (arith, ==_iff v.id v.method)
  allowed_complete cancel h e =
      let t = tests sdk a v "cancel" h.0 in ground (arith, ==_iff v.id v.method)

module _ (sdk : Sdk) (a : Adapter sdk) where
  -- The frame is a well-formed request for the command under the contract.
  abbrev pub IsRequest : (List ℕ → Option (WireRequest sdk a)) → List ℕ → Request sdk a → Type 0
  IsRequest decode bytes r =
      (v : WireRequest sdk a) × (length bytes ≤ max_frame)
      × (decode bytes ≡ some v)
      × (contract_of sdk a v.protocol v.protocol_version ≡ some r.contract)
      × (v.id ≡ v.method)
      × Asks sdk a v r.contract r.command

  accept_sound :
      (v : WireRequest sdk a) (r : Request sdk a)
      → accept sdk a v ≡ ok r
      → (contract_of sdk a v.protocol v.protocol_version ≡ some r.contract)
        × (v.id ≡ v.method)
        × Asks sdk a v r.contract r.command
  unfolding accept
  accept_sound v r h =
      let parts : (contract_of sdk a v.protocol v.protocol_version ≡ some r.contract)
          × (allowed sdk a r.contract v ≡ true)
          × (command_of sdk a r.contract v ≡ ok r.command) =
        ground arith in
      (
        parts.0,
        allowed_id sdk a v r.contract parts.1,
        command_sound sdk a v r.contract parts.1 r.command parts.2,
      )

  accept_complete :
      (v : WireRequest sdk a) (r : Request sdk a)
      → contract_of sdk a v.protocol v.protocol_version ≡ some r.contract
      → v.id ≡ v.method
      → Asks sdk a v r.contract r.command
      → accept sdk a v ≡ ok r
  unfolding accept
  accept_complete v r c e h =
      let al = allowed_complete sdk a v r.contract r.command h e in
      let co = command_complete sdk a v r.contract r.command h in ground arith

  module _ (decode : List ℕ → Option (WireRequest sdk a)) (bytes : List ℕ) (r : Request sdk a) where
    parse_sound : parse sdk a decode bytes ≡ ok r → IsRequest decode bytes r
    unfolding parse
    parse_sound h = elim (Option-cases (decode bytes)) [
      | inl e ↦ ground arith
      | inr (v, e) ↦
          let small : leb (length bytes) max_frame ≡ true = ground arith in
          let (c, i, m) = accept_sound v r (ground arith) in (v, leb→le _ _ small, e, c, i, m)
    ]

    parse_complete : IsRequest decode bytes r → parse sdk a decode bytes ≡ ok r
    unfolding parse
    parse_complete h = let done = accept_complete h.0 r h.3 h.4 h.5 in rw (le→leb _ _ h.1, h.2) done

  -- `parse` accepts a frame as a request exactly where the frame is within `max_frame` bytes, serde
  -- decodes it, its protocol fields name the contract, its id is its method, and its fields are
  -- those of a well-formed request for the command: no more and no fewer.
  pub parse-eq-ok_iff :
      (decode : List ℕ → Option (WireRequest sdk a)) (bytes : List ℕ) (r : Request sdk a)
      → (parse sdk a decode bytes ≡ ok r) ↔ IsRequest decode bytes r
  parse-eq-ok_iff decode bytes r = (parse_sound decode bytes r, parse_complete decode bytes r)
