-- ===== src/Runtime/Request/Grammar.antt =====
-- The requests that `parse` accepts, command by command.
use permesh_providers.Shared.{
  ◌≡◌, refl, ap, ◌∙◌, string_eq, Bool, true, false, List, [], ◌∷◌, Option, none, some, String,
  arith, if◌then◌else◌, is_some, ok, ==_iff, ◌==◌, Bool-cases, inl, inr, Option-cases,
}
use mathlib.Core.Path.{subst}
use permesh_providers.Runtime.Sdk.{Sdk, Adapter}
use permesh_providers.Runtime.Request.{
  Contract, negotiated_v1, legacy_setup, legacy_auth, same_contract, Operation, valid_instance,
  is_network_v1, WireRequest, Command, handshake, operation, describe, describe_auth, cancel,
  allowed, command_of, later_arms, handshake_of, operation_of, is_operation, is_bare,
}

is_network_v1-eq : (fs : List String) → is_network_v1 fs ≡ true → fs ≡ "network_v1" ∷ []
unfolding is_network_v1
is_network_v1-eq (f ∷ []) h = ap (λ (s : String). s ∷ []) ((==_iff f "network_v1").0 h)
is_network_v1-eq [] h = cc
is_network_v1-eq (f ∷ g ∷ fs) h = cc

module _ (sdk : Sdk) (a : Adapter sdk) where
  -- The network feature is asked for by the one list that names it, under the negotiated contract
  -- and of an adapter that supports it.
  abbrev pub Features : Contract → Option (List String) → Bool → Type 0
  Features c features false = features ≡ none
  Features c features true =
      (features ≡ some ("network_v1" ∷ [])) × (a.supports_network ≡ true) × (c ≡ negotiated_v1)

  abbrev pub Network : Option sdk.NetworkContext → Type 0
  Network none = Unit
  Network (some n) = (a.supports_network ≡ true) × (sdk.context_valid n ≡ true)

  -- The request `v`, read under the contract `c`, is a well-formed request for the command.
  abbrev pub Asks : WireRequest sdk a → Contract → Command sdk a → Type 0
  Asks v c (handshake name op net) =
      (v.method ≡ "handshake")
      × (v.instance_name ≡ some name)
      × (valid_instance name ≡ true)
      × (v.operation ≡ op)
      × (is_some op ≡ same_contract c negotiated_v1)
      × Features c v.features net
      × (v.network ≡ none)
      × (v.configuration ≡ none)
      × (v.credentials ≡ none)
  Asks v c (operation check conf cred net) =
      (v.method ≡ (if check then "check" else "discover"))
      × (c ≡ negotiated_v1)
      × (v.configuration ≡ some conf)
      × (v.credentials ≡ some cred)
      × (a.validate conf cred ≡ true)
      × (v.network ≡ net)
      × Network net
      × (v.instance_name ≡ none)
      × (v.operation ≡ none)
      × (v.features ≡ none)
  Asks v c describe =
      (v.method ≡ "describe")
      × (c ≡ legacy_setup)
      × (v.instance_name ≡ none)
      × (v.configuration ≡ none)
      × (v.credentials ≡ none)
      × (v.operation ≡ none)
      × (v.features ≡ none)
      × (v.network ≡ none)
  Asks v c describe_auth =
      (v.method ≡ "describe_auth")
      × (c ≡ legacy_auth)
      × (v.instance_name ≡ none)
      × (v.configuration ≡ none)
      × (v.credentials ≡ none)
      × (v.operation ≡ none)
      × (v.features ≡ none)
      × (v.network ≡ none)
  Asks v c cancel =
      (v.method ≡ "cancel")
      × (v.instance_name ≡ none)
      × (v.configuration ≡ none)
      × (v.credentials ≡ none)
      × (v.operation ≡ none)
      × (v.features ≡ none)
      × (v.network ≡ none)

  module _ (v : WireRequest sdk a) where
    -- What the tests of the method say once the method is known.
    pub record Tests (m : String) : Type 0 where
      pub handshake_test : (v.method == "handshake") ≡ (m == "handshake")
      pub describe_test : (v.method == "describe") ≡ (m == "describe")
      pub describe_auth_test : (v.method == "describe_auth") ≡ (m == "describe_auth")
      pub cancel_test : (v.method == "cancel") ≡ (m == "cancel")
      pub check_test : (v.method == "check") ≡ (m == "check")
      pub discover_test : (v.method == "discover") ≡ (m == "discover")

    pub tests : (m : String) → v.method ≡ m → Tests m
    tests m e = record {
      handshake_test = rw e refl;
      describe_test = rw e refl;
      describe_auth_test = rw e refl;
      cancel_test = rw e refl;
      check_test = rw e refl;
      discover_test = rw e refl;
    }

  module _ (v : WireRequest sdk a) (c : Contract) (al : allowed sdk a c v ≡ true) where
    pub allowed_id : v.id ≡ v.method
    unfolding allowed
    allowed_id = ground (arith, ==_iff v.id v.method)

    allowed_Features : Features c v.features (is_some v.features)
    unfolding allowed
    allowed_Features = elim (Option-cases v.features) [
      | inl e ↦ rw e refl
      | inr (f, e) ↦ rw e (ground (arith, is_network_v1-eq f))
    ]

    allowed_Network : Network v.network
    unfolding allowed
    allowed_Network = ground arith

    allowed_unless_operation : is_operation sdk a v.method ≡ false → v.network ≡ none
    unfolding allowed
    allowed_unless_operation m = ground arith

    allowed_unless_handshake :
        (v.method == "handshake") ≡ false → (v.operation ≡ none) × (v.features ≡ none)
    unfolding allowed
    allowed_unless_handshake m = ground arith

    handshake_of_sound :
        (name : String) (op : Option Operation) (net : Bool)
        → handshake_of sdk a c v ≡ ok (handshake name op net)
        → (v.instance_name ≡ some name)
          × (valid_instance name ≡ true)
          × (v.operation ≡ op)
          × (is_some op ≡ same_contract c negotiated_v1)
          × (is_some v.features ≡ net)
    unfolding handshake_of
    handshake_of_sound name op net h = ground arith

    operation_of_sound :
        (check : Bool) (conf : a.Configuration) (cred : a.Credentials)
        (net : Option sdk.NetworkContext)
        → operation_of sdk a v ≡ ok (operation check conf cred net)
        → ((v.method == "check") ≡ check)
          × (v.configuration ≡ some conf)
          × (v.credentials ≡ some cred)
          × (a.validate conf cred ≡ true)
          × (v.network ≡ net)
    unfolding operation_of
    operation_of_sound check conf cred net h = ground arith

    abbrev Handshakes : Command sdk a → Type 0
    Handshakes (handshake name op net) = Unit
    Handshakes _ = ⊥

    abbrev Operates : Command sdk a → Type 0
    Operates (operation check conf cred net) = Unit
    Operates _ = ⊥

    handshake_of_only : (k : Command sdk a) → handshake_of sdk a c v ≡ ok k → Handshakes k
    unfolding handshake_of
    handshake_of_only (handshake name op net) h = tt
    handshake_of_only _ h = ground arith

    operation_of_only : (k : Command sdk a) → operation_of sdk a v ≡ ok k → Operates k
    unfolding operation_of
    operation_of_only (operation check conf cred net) h = tt
    operation_of_only _ h = ground arith

    later_arms_only : (k : Command sdk a) → later_arms sdk a c v ≡ ok k → Handshakes k → ⊥
    unfolding later_arms is_operation
    later_arms_only (handshake name op net) h _ =
        ground (arith, operation_of_only (handshake name op net))
    later_arms_only (operation check conf cred net) h p = p
    later_arms_only describe h p = p
    later_arms_only describe_auth h p = p
    later_arms_only cancel h p = p

    first_arm :
        (k : Command sdk a)
        → command_of sdk a c v ≡ ok k
        → (Handshakes k → ⊥)
        → later_arms sdk a c v ≡ ok k
    unfolding command_of
    first_arm k h p = ground (arith, handshake_of_only k)

    pub not_handshake :
        (check : Bool)
        → v.method ≡ (if check then "check" else "discover")
        → (v.method == "handshake") ≡ false
    not_handshake true m = rw m refl
    not_handshake false m = rw m refl

    module _ (check : Bool) (conf : a.Configuration) (cred : a.Credentials)
        (net : Option sdk.NetworkContext)
        (h : later_arms sdk a c v ≡ ok (operation check conf cred net)) where
      operation_arm :
          (is_operation sdk a v.method ≡ true)
          × (c ≡ negotiated_v1)
          × (v.instance_name ≡ none)
          × (operation_of sdk a v ≡ ok (operation check conf cred net))
      unfolding later_arms
      operation_arm = ground arith

      operation_method : v.method ≡ (if check then "check" else "discover")
      unfolding is_operation
      operation_method = ground (
        arith,
        operation_arm,
        operation_of_sound check conf cred net,
        ==_iff v.method "check",
        ==_iff v.method "discover",
      )

      operation_sound : Asks v c (operation check conf cred net)
      operation_sound =
          let p = operation_of_sound check conf cred net operation_arm.3 in
          let bare = allowed_unless_handshake (not_handshake check operation_method) in
          (
            operation_method,
            operation_arm.1,
            p.1,
            p.2,
            p.3,
            p.4,
            subst Network p.4 allowed_Network,
            operation_arm.2,
            bare.0,
            bare.1,
          )

    bare_fields :
        is_bare sdk a v ≡ true
        → (v.instance_name ≡ none) × (v.configuration ≡ none) × (v.credentials ≡ none)
    bare_fields h = ground arith

    -- What an arm asks of the fields that no arm but the first or the last may have.
    Absent : Type 0
    Absent = (v.operation ≡ none) × (v.features ≡ none) × (v.network ≡ none)

    absent :
        (m : String)
        → v.method ≡ m
        → is_operation sdk a m ≡ false
        → (m == "handshake") ≡ false
        → Absent
    unfolding Absent
    absent m e o h =
        let bare = allowed_unless_handshake ((tests v m e).handshake_test ∙ h) in
        (bare.0, bare.1, allowed_unless_operation (ap (λ s. is_operation sdk a s) e ∙ o))

    describe_arm :
        later_arms sdk a c v ≡ ok describe
        → ((v.method == "describe") ≡ true) × (c ≡ legacy_setup) × (is_bare sdk a v ≡ true)
    unfolding later_arms
    describe_arm h = ground (arith, operation_of_only describe)

    describe_auth_arm :
        later_arms sdk a c v ≡ ok describe_auth
        → ((v.method == "describe_auth") ≡ true) × (c ≡ legacy_auth) × (is_bare sdk a v ≡ true)
    unfolding later_arms
    describe_auth_arm h = ground (arith, operation_of_only describe_auth)

    cancel_arm :
        later_arms sdk a c v ≡ ok cancel
        → ((v.method == "cancel") ≡ true) × (is_bare sdk a v ≡ true)
    unfolding later_arms
    cancel_arm h = ground (arith, operation_of_only cancel)

    later_sound : (k : Command sdk a) → later_arms sdk a c v ≡ ok k → Asks v c k
    unfolding Absent is_operation
    later_sound (handshake name op net) h = absurd (later_arms_only (handshake name op net) h tt)
    later_sound (operation check conf cred net) h = operation_sound check conf cred net h
    later_sound describe h =
        let (t, contract, bare) = describe_arm h in
        let m = (==_iff v.method "describe").0 t in
        let f = bare_fields bare in
        let g = absent "describe" m refl refl in (m, contract, f.0, f.1, f.2, g.0, g.1, g.2)
    later_sound describe_auth h =
        let (t, contract, bare) = describe_auth_arm h in
        let m = (==_iff v.method "describe_auth").0 t in
        let f = bare_fields bare in
        let g = absent "describe_auth" m refl refl in (m, contract, f.0, f.1, f.2, g.0, g.1, g.2)
    later_sound cancel h =
        let (t, bare) = cancel_arm h in
        let m = (==_iff v.method "cancel").0 t in
        let f = bare_fields bare in
        let g = absent "cancel" m refl refl in (m, f.0, f.1, f.2, g.0, g.1, g.2)

    pub command_sound : (k : Command sdk a) → command_of sdk a c v ≡ ok k → Asks v c k
    unfolding command_of is_operation
    command_sound (handshake name op net) h = elim (Bool-cases (v.method == "handshake")) [
      | inl e ↦
          let m = (==_iff v.method "handshake").0 e in
          let t = tests v "handshake" m in
          ground (
            arith,
            allowed_Features,
            allowed_unless_operation,
            handshake_of_sound name op net,
            later_arms_only (handshake name op net),
          )
      | inr e ↦ ground (arith, later_arms_only (handshake name op net))
    ]
    command_sound k h = later_sound k (first_arm k h (λ p. p))
