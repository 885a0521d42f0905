-- ===== src/Events/Tests.antt =====
-- Tests of the encoding of events and of their IDs.
use tenjin.Common.{◌≡◌, [], ◌∷◌, ◌++◌}
use tenjin.Events.Ids.{event_id_of_stream, event_id_of_stream_collision}

event_id_of_stream_collision_example :
    event_id_of_stream ((b'1' ∷ []) ++ (b'-' ∷ ((b'2' ∷ []) ++ (b'3' ∷ []))))
    ≡ event_id_of_stream (((b'1' ∷ []) ++ (b'2' ∷ [])) ++ (b'-' ∷ (b'3' ∷ [])))
event_id_of_stream_collision_example =
    event_id_of_stream_collision (b'1' ∷ []) (b'2' ∷ []) (b'3' ∷ [])
