-- ===== src/Events/Samples.antt =====
-- Concrete events and a concrete encoder, for the tests.
use tenjin.Common.{ℕ, refl, none, some, List, [], ◌∷◌, if◌then◌else◌}
use tenjin.Common.Int.{pos}
use tenjin.Events.{StreamedEvent, EventSideEffects, invalidate, string}
use tenjin.Events.Names.{EventName, IntentFlag}
use tenjin.Events.Values.{Orjson, RefusesBytes, has_bytes, int, field, end}

abbrev pub effects : EventSideEffects
effects = record {
  counter_updates =
      record { counter_group = "posts"; cache_key = "posts:7"; field_name = "score"; delta = pos 1 }
      ∷ [];
  intent_updates =
      record {
        intent_name = "votes:7";
        intent_flag = IntentFlag.resource_creation_pending_flag;
        intent_id = "a";
      }
      ∷ [];
  cache_invalidations =
      record { cache_key = "posts:7"; operation = invalidate; resource_type = string } ∷ [];
}

abbrev pub vote : ℕ → StreamedEvent
vote n = record {
  event_id = n;
  event = record {
    name = EventName.post_vote;
    payload = field "post_id" (int (pos 7)) end;
    side_effects = effects;
  };
}

abbrev pub votes : List StreamedEvent
votes = vote 1 ∷ vote 2 ∷ vote 3 ∷ []

-- an encoder that refuses the values with bytes in them
abbrev pub encoder : Orjson
encoder = record { dumps = λ v. if has_bytes v then none else some "{}"; loads = λ s. none }

pub encoder-RefusesBytes : RefusesBytes encoder
encoder-RefusesBytes = record { refuses = λ v h. rw h refl }
