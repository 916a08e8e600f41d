-- ===== src/Github/Keys.antt =====
-- providers/github/src/records.rs: the keys of its maps, whose equality is tested.
use permesh_providers.Shared.{◌≡◌, ap, Bool, true, false, Eq, ◌==◌, ==_refl, ==_sound, string_eq}
pub use permesh_providers.Runtime.Domain.Keys.{parts, key_eq}
use permesh_providers.Runtime.Domain.{
  Subject, account, group, Privilege, standard, elevated, admin, owner,
}

abbrev pub same_subject : Subject → Subject → Bool
same_subject (account k) (account l) = k == l
same_subject (group k) (group l) = k == l
same_subject _ _ = false

pub same_subject_sound : (s t : Subject) → same_subject s t ≡ true → s ≡ t
same_subject_sound (account k) (account l) h = ap account (==_sound h)
same_subject_sound (group k) (group l) h = ap group (==_sound h)
same_subject_sound (account k) (group l) h = cc
same_subject_sound (group k) (account l) h = cc

pub same_subject_refl : (s : Subject) → same_subject s s ≡ true
same_subject_refl (account k) = ==_refl k
same_subject_refl (group k) = ==_refl k

instance abbrev pub subject_eq : Eq Subject
subject_eq = record {
  same = same_subject;
  same_sound = λ {x} {y} h. same_subject_sound x y h;
  same_refl = same_subject_refl;
}

abbrev pub same_privilege : Privilege → Privilege → Bool
same_privilege standard standard = true
same_privilege elevated elevated = true
same_privilege admin admin = true
same_privilege owner owner = true
same_privilege Privilege.unknown Privilege.unknown = true
same_privilege _ _ = false
