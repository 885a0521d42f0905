-- ===== src/Events/Ids.antt =====
-- resource_auxillary/events.py, `int(stream_id.replace("-", ""))`: the number by which a streamed
-- event is known, from the stream ID that Redis prints.
use tenjin.Common.{
  ℕ, ◌+◌, ◌-◌, ◌*◌, ◌≡◌, refl, Option, none, some, List, [], ◌∷◌, ◌++◌, if◌then◌else◌, ◌==◌, leb,
  ◌&&◌, arith, append_assoc,
}

-- `text.replace("-", "")`, on the code points of the text
unfoldable pub remove_dashes : List ℕ → List ℕ
remove_dashes [] = []
remove_dashes (c ∷ cs) = if c == b'-' then remove_dashes cs else c ∷ remove_dashes cs

-- `int(text)` of a text of decimal digits; any other text raises ValueError
unfoldable pub digits_value : ℕ → List ℕ → Option ℕ
digits_value n [] = some n
digits_value n (c ∷ cs) =
    let rest = digits_value (n * 10 + (c - b'0')) cs in
    if leb b'0' c && leb c b'9' then rest else none

unfoldable pub int_of_text : List ℕ → Option ℕ
unfolding digits_value
int_of_text [] = none
int_of_text (c ∷ cs) = digits_value 0 (c ∷ cs)

unfoldable pub event_id_of_stream : List ℕ → Option ℕ
event_id_of_stream stream_id = int_of_text (remove_dashes stream_id)

remove_dashes-append :
    (xs ys : List ℕ) → remove_dashes (xs ++ ys) ≡ remove_dashes xs ++ remove_dashes ys
unfolding remove_dashes
remove_dashes-append [] ys = refl
remove_dashes-append (c ∷ xs) ys = ground (arith, remove_dashes-append xs ys)

remove_dashes-dash : (cs : List ℕ) → remove_dashes (b'-' ∷ cs) ≡ remove_dashes cs
unfolding remove_dashes
remove_dashes-dash cs = refl

-- Moving digits over the dash of a stream ID, from the sequence number to the time, leaves the
-- number as it was: distinct records may share an event ID.
pub event_id_of_stream_collision :
    (time shared sequence : List ℕ)
    → event_id_of_stream (time ++ (b'-' ∷ (shared ++ sequence)))
      ≡ event_id_of_stream ((time ++ shared) ++ (b'-' ∷ sequence))
unfolding event_id_of_stream
event_id_of_stream_collision time shared sequence =
    simp (remove_dashes-append, remove_dashes-dash, append_assoc)
