-- ===== src/Tests/Messages.antt =====
-- Messages of src/client_agent.rs at concrete inputs.
use lusbip.Base.{◌≡◌, [], ◌∷◌, some, Text}
use lusbip.Agent.Control.{ControlResponse, snapshot, write_response, read_response}
use lusbip.Agent.Messages.{read_response-write_response}

-- `1%`, a tab and a line feed.
abbrev hard_text : Text
hard_text = 49 ∷ 37 ∷ 9 ∷ 10 ∷ []

abbrev items : ControlResponse
items =
    snapshot (record { id = hard_text; label = [] } ∷ record { id = []; label = hard_text } ∷ [])

read_response-write_response_example : read_response (write_response items) ≡ some items
read_response-write_response_example = read_response-write_response items
