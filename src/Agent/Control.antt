-- ===== src/Agent/Control.antt =====
-- The messages between the client and its background agent in src/client_agent.rs: requests
-- (`ControlRequest::parse` and the line that `send_request` writes) and responses (`write_response`
-- and `read_response`). A stream is the text that it carries; `none` is an error.
use lusbip.Base.{
  ℕ, true, false, ◌||◌, List, [], ◌∷◌, ◌++◌, Option, none, some, ◌==◌, if◌then◌else◌, Text, text_eq,
}
use lusbip.Agent.Percent.{tab, carriage_return, line_feed, percent_encode, percent_decode}

pub data ControlRequest : Type 0 where
  status : ControlRequest
  toggle : Text → ControlRequest
  shutdown : ControlRequest

pub record TuiItem : Type 0 where
  pub id : Text
  pub label : Text

pub data ControlResponse : Type 0 where
  snapshot : List TuiItem → ControlResponse
  message : Text → ControlResponse
  error : Text → ControlResponse

-- The words of the protocol: STATUS, SHUTDOWN, TOGGLE, OK, ERR, ITEM and END.
abbrev pub status_word : Text
status_word = 83 ∷ 84 ∷ 65 ∷ 84 ∷ 85 ∷ 83 ∷ []

abbrev pub shutdown_word : Text
shutdown_word = 83 ∷ 72 ∷ 85 ∷ 84 ∷ 68 ∷ 79 ∷ 87 ∷ 78 ∷ []

abbrev pub toggle_tab : Text
toggle_tab = 84 ∷ 79 ∷ 71 ∷ 71 ∷ 76 ∷ 69 ∷ 9 ∷ []

abbrev pub ok_word : Text
ok_word = 79 ∷ 75 ∷ []

abbrev pub ok_tab : Text
ok_tab = 79 ∷ 75 ∷ 9 ∷ []

abbrev pub err_tab : Text
err_tab = 69 ∷ 82 ∷ 82 ∷ 9 ∷ []

abbrev pub item_tab : Text
item_tab = 73 ∷ 84 ∷ 69 ∷ 77 ∷ 9 ∷ []

abbrev pub end_word : Text
end_word = 69 ∷ 78 ∷ 68 ∷ []

-- `trim_end_matches(['\r', '\n'])`.
unfoldable pub trim_push : ℕ → Text → Text
trim_push c [] = if c == carriage_return || c == line_feed then [] else c ∷ []
trim_push c (d ∷ ds) = c ∷ d ∷ ds

unfoldable pub trim_end : Text → Text
trim_end [] = []
trim_end (c ∷ cs) = trim_push c (trim_end cs)

unfoldable pub strip_prefix : Text → Text → Option Text
strip_prefix [] s = some s
strip_prefix (p ∷ ps) [] = none
strip_prefix (p ∷ ps) (c ∷ cs) = if p == c then strip_prefix ps cs else none

-- `split_once` at a tab.
unfoldable pub split_push : ℕ → Option (Text × Text) → Option (Text × Text)
split_push c none = none
split_push c (some (a, b)) = some (c ∷ a, b)

unfoldable pub split_once : Text → Option (Text × Text)
split_once [] = none
split_once (c ∷ cs) = elim (c == tab) [
  | true ↦ some ([], cs)
  | false ↦ split_push c (split_once cs)
]

-- `ControlRequest::parse`.
unfoldable pub parse_toggle : Option Text → Option ControlRequest
parse_toggle none = none
parse_toggle (some []) = none
parse_toggle (some (c ∷ cs)) = elim (percent_decode (c ∷ cs)) [
  | none ↦ none
  | some bus_id ↦ some (toggle bus_id)
]

unfoldable pub parse : Text → Option ControlRequest
parse input =
    let line = trim_end input in
    if text_eq line status_word
    then some status
    else if text_eq line shutdown_word
    then some shutdown
    else parse_toggle (strip_prefix toggle_tab line)

-- The line that `send_request` writes.
unfoldable pub request_line : ControlRequest → Text
request_line status = status_word ++ line_feed ∷ []
request_line shutdown = shutdown_word ++ line_feed ∷ []
request_line (toggle bus_id) = (toggle_tab ++ percent_encode bus_id) ++ line_feed ∷ []

-- The lines that `read_line` returns one after the other, each with its line feed.
unfoldable pub push_line : ℕ → List Text → List Text
push_line c [] = (c ∷ []) ∷ []
push_line c (l ∷ ls) = (c ∷ l) ∷ ls

unfoldable pub read_lines : Text → List Text
read_lines [] = []
read_lines (c ∷ cs) =
    if c == line_feed then (c ∷ []) ∷ read_lines cs else push_line c (read_lines cs)

unfoldable pub write_items : List TuiItem → Text
write_items [] = end_word ++ line_feed ∷ []
write_items (item ∷ items) =
    (item_tab ++ percent_encode item.id ++ tab ∷ percent_encode item.label)
    ++ line_feed ∷ write_items items

-- `write_response`: what is written to the stream.
unfoldable pub write_response : ControlResponse → Text
write_response (snapshot items) = ok_word ++ line_feed ∷ write_items items
write_response (message text) = (ok_tab ++ percent_encode text) ++ line_feed ∷ []
write_response (error text) = (err_tab ++ percent_encode text) ++ line_feed ∷ []

unfoldable pub item_of : Option Text → Option Text → Option TuiItem
item_of none label = none
item_of (some id) none = none
item_of (some id) (some label) = some (record { id = id; label = label })

unfoldable pub fields_item : Option (Text × Text) → Option TuiItem
fields_item none = none
fields_item (some (id, label)) = item_of (percent_decode id) (percent_decode label)

unfoldable pub value_item : Option Text → Option TuiItem
value_item none = none
value_item (some value) = fields_item (split_once value)

unfoldable pub push_item : Option TuiItem → Option (List TuiItem) → Option (List TuiItem)
push_item none rest = none
push_item (some item) none = none
push_item (some item) (some items) = some (item ∷ items)

-- The loop of `read_response`; at the end of the stream an empty line is read, which is no item.
unfoldable pub read_items : List Text → Option (List TuiItem)
read_items [] = none
read_items (l ∷ ls) = elim (text_eq (trim_end l) end_word) [
  | true ↦ some []
  | false ↦ push_item (value_item (strip_prefix item_tab (trim_end l))) (read_items ls)
]

unfoldable pub decoded : (Text → ControlResponse) → Option Text → Option ControlResponse
decoded f none = none
decoded f (some text) = some (f text)

unfoldable pub snapshot_of : Option (List TuiItem) → Option ControlResponse
snapshot_of none = none
snapshot_of (some items) = some (snapshot items)

-- `read_response` from its first line and the lines behind it.
unfoldable pub read_first : Text → List Text → Option ControlResponse
read_first first rest = elim (strip_prefix ok_tab first) [
  | some text ↦ decoded message (percent_decode text)
  | none ↦ elim (strip_prefix err_tab first) [
    | some text ↦ decoded error (percent_decode text)
    | none ↦ if text_eq first ok_word then snapshot_of (read_items rest) else none
  ]
]

unfoldable pub read_response_lines : List Text → Option ControlResponse
read_response_lines [] = read_first [] []
read_response_lines (l ∷ ls) = read_first (trim_end l) ls

unfoldable pub read_response : Text → Option ControlResponse
read_response stream = read_response_lines (read_lines stream)
