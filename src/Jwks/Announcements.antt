-- ===== src/Jwks/Announcements.antt =====
-- What an announcement of keys makes of the mapping of keys.
use tenjin.Common.{◌≡◌, refl, false, Bool-cases, inl, inr, String, List, [], ◌∷◌}
use tenjin.Common.Dict.{Dict, has_key}
use tenjin.Jwks.{unknown_keys, pop_keys, set_defaults, after_pops, sync_announced}

set_defaults_known :
    (announced mapping : Dict String)
    → unknown_keys announced mapping ≡ []
    → set_defaults announced mapping ≡ mapping
unfolding unknown_keys set_defaults
set_defaults_known [] mapping h = refl
set_defaults_known ((kid, key) ∷ announced) mapping h = elim (Bool-cases (has_key kid mapping)) [
  | inl known ↦ rw known (set_defaults_known announced mapping (rw known at h))
  | inr new ↦ let raised = rw new at h in cc
]

head_unknown :
    (announced mapping : Dict String) (kid : String) (kids : List String)
    → unknown_keys announced mapping ≡ kid ∷ kids
    → has_key kid mapping ≡ false
unfolding unknown_keys
head_unknown [] mapping kid kids h = cc
head_unknown ((j, key) ∷ announced) mapping kid kids h = elim (Bool-cases (has_key j mapping)) [
  | inl known ↦ head_unknown announced mapping kid kids (rw known at h)
  | inr new ↦ let found = rw new at h in cc
]

by_unknown :
    (announced mapping : Dict String) (kids : List String)
    → unknown_keys announced mapping ≡ kids
    → (after_pops (pop_keys kids announced mapping)).1 ≡ mapping
unfolding pop_keys after_pops
by_unknown announced mapping [] h = set_defaults_known announced mapping h
by_unknown announced mapping (kid ∷ kids) h = rw (head_unknown announced mapping kid kids h) refl

-- Whatever keys are announced, and also where the announcement raises: the mapping stays as it is,
-- so a new signing key is not learnt from its announcement and an old one is not forgotten.
pub sync_announced_leaves :
    (announced mapping : Dict String) → (sync_announced announced mapping).1 ≡ mapping
unfolding sync_announced
sync_announced_leaves announced mapping =
    by_unknown announced mapping (unknown_keys announced mapping) refl
