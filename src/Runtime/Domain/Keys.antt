-- ===== src/Runtime/Domain/Keys.antt =====
-- The equality of permesh_core's `EntityKey`, which the providers' maps and sets are keyed by.
use permesh_providers.Shared.{ap, String, Eq, string_eq, same_pair, same_pair_sound, same_pair_refl}
use permesh_providers.Runtime.Domain.{EntityKey}

abbrev pub parts : EntityKey → String × String
parts k = (k.provider, k.id)

instance abbrev pub key_eq : Eq EntityKey
key_eq = record {
  same = λ k l. same_pair (parts k) (parts l);
  same_sound = λ {x} {y} h.
      ap (λ p. record { provider = p.0; id = p.1 }) (same_pair_sound (parts x) (parts y) h);
  same_refl = λ k. same_pair_refl (parts k);
}
