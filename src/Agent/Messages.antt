-- ===== src/Agent/Messages.antt =====
-- What the client writes, the agent reads, and back: round trips of the messages in
-- src/client_agent.rs.
use lusbip.Base.{
  ℕ, ◌≡◌, ◌≢◌, refl, sym, ap, ◌∙◌, Bool, true, false, not, ◌&&◌, ◌||◌, List, [], ◌∷◌, ◌++◌, some,
  ◌==◌, Text, text_eq, arith,
}
use lusbip.Agent.Percent.{
  tab, carriage_return, line_feed, percent_encode, percent_decode, is_line_text,
  percent_decode-percent_encode, percent_encode-is_line_text,
}
use lusbip.Agent.Control.{
  ControlRequest, status, toggle, shutdown, TuiItem, ControlResponse, snapshot, message, error,
  toggle_tab, ok_word, ok_tab, err_tab, item_tab, end_word, trim_push, trim_end, strip_prefix,
  split_push, split_once, parse_toggle, parse, request_line, push_line, read_lines, write_items,
  write_response, item_of, fields_item, value_item, push_item, read_items, decoded, snapshot_of,
  read_first, read_response_lines, read_response,
}

-- No carriage return and no line feed.
unfoldable pub is_one_line : Text → Bool
is_one_line [] = true
is_one_line (c ∷ cs) = not (c == carriage_return || c == line_feed) && is_one_line cs

is_one_line-of : (s : Text) → is_line_text s ≡ true → is_one_line s ≡ true
unfolding is_one_line is_line_text
is_one_line-of [] h = refl
is_one_line-of (c ∷ cs) h = ground (arith, is_one_line-of cs)

is_one_line-append :
    (s t : Text) → is_one_line s ≡ true → is_one_line t ≡ true → is_one_line (s ++ t) ≡ true
unfolding is_one_line
is_one_line-append [] t h k = k
is_one_line-append (c ∷ cs) t h k = ground (arith, is_one_line-append cs t)

trim_push-plain :
    (c : ℕ) (s : Text) → (c == carriage_return || c == line_feed) ≡ false → trim_push c s ≡ c ∷ s
unfolding trim_push
trim_push-plain c [] h = rw h refl
trim_push-plain c (d ∷ ds) h = refl

-- Reading a line that ends the text or not, and dropping its end.
trim_end_line : (s : Text) → is_one_line s ≡ true → trim_end (s ++ line_feed ∷ []) ≡ s
unfolding trim_end trim_push is_one_line
trim_end_line [] h = refl
trim_end_line (c ∷ cs) h =
    let p : (c == carriage_return || c == line_feed) ≡ false = ground arith in
    let q : is_one_line cs ≡ true = ground arith in
    ap (trim_push c) (trim_end_line cs q) ∙ trim_push-plain c cs p

read_lines_line :
    (s t : Text)
    → is_one_line s ≡ true
    → read_lines (s ++ line_feed ∷ t) ≡ (s ++ line_feed ∷ []) ∷ read_lines t
unfolding read_lines push_line is_one_line
read_lines_line [] t h = refl
read_lines_line (c ∷ cs) t h =
    let p : (c == line_feed) ≡ false = ground arith in
    let q : is_one_line cs ≡ true = ground arith in rw (p, read_lines_line cs t q) refl

encoded-is_one_line : (s : Text) → is_one_line (percent_encode s) ≡ true
encoded-is_one_line s = is_one_line-of (percent_encode s) (percent_encode-is_line_text s)

split_once_line : (s t : Text) → is_line_text s ≡ true → split_once (s ++ tab ∷ t) ≡ some (s, t)
unfolding split_once split_push is_line_text
split_once_line [] t h = refl
split_once_line (c ∷ cs) t h =
    let p : (c == tab) ≡ false = ground arith in
    let q : is_line_text cs ≡ true = ground arith in rw (p, split_once, split_once_line cs t q) refl

decode_encoded : (s : Text) → percent_decode (percent_encode s) ≡ some s
decode_encoded s = percent_decode-percent_encode s

parse_toggle-encoded :
    (s : Text) (e : Text) → percent_encode s ≡ e → s ≢ [] → parse_toggle (some e) ≡ some (toggle s)
unfolding parse_toggle percent_decode
parse_toggle-encoded s [] h n =
    absurd (n (some-injective (sym (decode_encoded s) ∙ ap percent_decode h)))
  where
    some-injective : some s ≡ some [] → s ≡ []
    some-injective h = cc h
parse_toggle-encoded s (c ∷ cs) h n =
    rw (sym (ap percent_decode h) ∙ decode_encoded s, parse_toggle) refl

-- The request names a device.
abbrev pub IsRequest : ControlRequest → Type 0
IsRequest status = Unit
IsRequest (toggle bus_id) = bus_id ≢ []
IsRequest shutdown = Unit

-- The agent reads from the line of a request that names a device, if any, the same request.
pub parse-request_line : (r : ControlRequest) → IsRequest r → parse (request_line r) ≡ some r
unfolding parse request_line trim_end trim_push text_eq strip_prefix is_one_line
parse-request_line status h = refl
parse-request_line shutdown h = refl
parse-request_line (toggle s) h =
    rw (trim_end_line (toggle_tab ++ percent_encode s) (encoded-is_one_line s))
      (parse_toggle-encoded s (percent_encode s) refl h)

item_line : TuiItem → Text
item_line item = item_tab ++ percent_encode item.id ++ tab ∷ percent_encode item.label

item_line-is_one_line : (item : TuiItem) → is_one_line (item_line item) ≡ true
unfolding is_one_line item_line
item_line-is_one_line item =
    is_one_line-append (percent_encode item.id) (tab ∷ percent_encode item.label)
      (encoded-is_one_line item.id) (encoded-is_one_line item.label)

read_item : (item : TuiItem) → value_item (strip_prefix item_tab (item_line item)) ≡ some item
unfolding value_item strip_prefix item_line fields_item item_of
read_item item =
    rw
      (
        split_once_line (percent_encode item.id) (percent_encode item.label)
            (percent_encode-is_line_text item.id),
        decode_encoded item.id,
        decode_encoded item.label,
      )
      refl

read_items_line :
    (s t : Text)
    → is_one_line s ≡ true
    → text_eq s end_word ≡ false
    → read_items (read_lines (s ++ line_feed ∷ t))
      ≡ push_item (value_item (strip_prefix item_tab s)) (read_items (read_lines t))
unfolding read_items
read_items_line s t h n =
    rw (read_lines_line s t h, read_items, trim_end_line s h, n) (rw (trim_end_line s h) refl)

item_line-text_eq : (item : TuiItem) → text_eq (item_line item) end_word ≡ false
unfolding item_line text_eq
item_line-text_eq item = refl

read_items-item :
    (item : TuiItem) (items : List TuiItem)
    → read_items (read_lines (write_items items)) ≡ some items
    → read_items (read_lines (item_line item ++ line_feed ∷ write_items items))
      ≡ some (item ∷ items)
unfolding push_item
read_items-item item items h =
    read_items_line (item_line item) (write_items items) (item_line-is_one_line item)
      (item_line-text_eq item)
    ∙ rw (read_item item, h) refl

read_items-write_items :
    (items : List TuiItem) → read_items (read_lines (write_items items)) ≡ some items
unfolding read_items write_items read_lines text_eq trim_end trim_push push_line item_line
read_items-write_items [] = refl
read_items-write_items (item ∷ items) = read_items-item item items (read_items-write_items items)

read_response_line :
    (s t : Text)
    → is_one_line s ≡ true
    → read_response (s ++ line_feed ∷ t) ≡ read_first s (read_lines t)
unfolding read_response read_response_lines
read_response_line s t h =
    ap read_response_lines (read_lines_line s t h)
    ∙ ap (λ l. read_first l (read_lines t)) (trim_end_line s h)

-- Every response is read back as it was written.
pub read_response-write_response : (r : ControlResponse) → read_response (write_response r) ≡ some r
unfolding write_response read_first strip_prefix decoded snapshot_of text_eq is_one_line
read_response-write_response (snapshot items) =
    read_response_line ok_word (write_items items) refl
    ∙ ap snapshot_of (read_items-write_items items)
read_response-write_response (message s) =
    read_response_line (ok_tab ++ percent_encode s) [] (encoded-is_one_line s)
    ∙ ap (decoded message) (decode_encoded s)
read_response-write_response (error s) =
    read_response_line (err_tab ++ percent_encode s) [] (encoded-is_one_line s)
    ∙ ap (decoded error) (decode_encoded s)
