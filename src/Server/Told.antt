-- ===== src/Server/Told.antt =====
-- What the client of src/client.rs reads from the occupancy port of src/server.rs.
use lusbip.Base.{
  ℕ, ◌≡◌, refl, ap, sym, ◌∙◌, true, false, not, ◌&&◌, ◌||◌, List, [], ◌∷◌, ◌++◌, none, some, ◌==◌,
  Text, All, arith, append_assoc, Bool-cases, inl, inr, ==_iff, false≢true,
}
use lusbip.Agent.Control.{strip_prefix}
use lusbip.Client.Texts.{lines, onto_line, split_once, onto_left, is_whitespace, is_empty, ◌>>=◌}
use lusbip.Client.Listing.{
  all_chars, filter_map, onto_some, occupancy_line, parse_remote_occupancy_status,
}
use lusbip.Client.Occupied.{HasNoWhitespace, trim-id, all_chars-append}
use lusbip.Server.Status.{occupancy_status}

-- A text without line ends.
abbrev IsLine : Text → Type 0
IsLine s = all_chars (λ c. not (c == 10) && not (c == 13)) s ≡ true

lines-line : (s rest : Text) → IsLine s → lines (s ++ 10 ∷ rest) ≡ s ∷ lines rest
unfolding lines all_chars onto_line
lines-line [] rest h = refl
lines-line (c ∷ cs) rest h =
    let a : (c == 10) ≡ false = ground arith in
    let b : (c == 13) ≡ false = ground arith in
    let k : IsLine cs = ground arith in rw (a, b, lines) (rw (lines-line cs rest k) refl)

not_space : (c k : ℕ) → is_whitespace c ≡ false → is_whitespace k ≡ true → (c == k) ≡ false
not_space c k h w = elim (Bool-cases (c == k)) [
  | inl e ↦ absurd (false≢true (sym h ∙ ap is_whitespace ((==_iff c k).0 e) ∙ w))
  | inr e ↦ e
]

-- The first character of a text without white space, and the others.
no_space-cons :
    (c : ℕ) (cs : Text) → HasNoWhitespace (c ∷ cs) → (is_whitespace c ≡ false) × HasNoWhitespace cs
unfolding all_chars
no_space-cons c cs h = ground arith

space : (k : ℕ) → (k == 9 || k == 10 || k == 13) ≡ true → is_whitespace k ≡ true
unfolding is_whitespace
space k h = ground arith

split_once-tab :
    (s rest : Text) → HasNoWhitespace s → split_once (9 ∷ []) (s ++ 9 ∷ rest) ≡ some (s, rest)
unfolding split_once strip_prefix all_chars onto_left
split_once-tab [] rest h = refl
split_once-tab (c ∷ cs) rest h =
    let k = no_space-cons c cs h in
    let n = not_space c 9 k.0 (space 9 refl) in
    let e : (9 == c) ≡ false = ground (arith, n) in
    let other : strip_prefix (9 ∷ []) (c ∷ (cs ++ 9 ∷ rest)) ≡ none = rw e refl in
    rw (other, split_once) (rw (split_once-tab cs rest k.1) refl)

-- An id or an address of the map: not empty, and without white space.
abbrev pub IsToken : Text → Type 0
IsToken s = (is_empty s ≡ false) × HasNoWhitespace s

IsToken-IsLine : (s : Text) → HasNoWhitespace s → IsLine s
unfolding all_chars
IsToken-IsLine [] h = refl
IsToken-IsLine (c ∷ cs) h =
    let k = no_space-cons c cs h in
    ground (
      arith,
      IsToken-IsLine cs k.1,
      not_space c 10 k.0 (space 10 refl),
      not_space c 13 k.0 (space 13 refl),
    )

occupancy_line-told :
    (bus_id client : Text)
    → IsToken bus_id
    → IsToken client
    → occupancy_line (bus_id ++ 9 ∷ client) ≡ some (bus_id, client)
unfolding occupancy_line ◌>>=◌
occupancy_line-told bus_id client h k =
    rw (split_once-tab bus_id client h.1)
      (rw (trim-id bus_id h.1, trim-id client k.1, h.0, k.0) refl)

-- From the answer for a map whose ids and addresses are not empty and hold no white space, the client
-- reads the map, entry by entry.
pub parse_remote_occupancy_status-occupancy_status :
    (entries : List (Text × Text))
    → All (λ e. IsToken (e.0) × IsToken (e.1)) entries
    → parse_remote_occupancy_status (occupancy_status entries) ≡ entries
unfolding parse_remote_occupancy_status occupancy_status filter_map lines onto_some
parse_remote_occupancy_status-occupancy_status [] h = refl
parse_remote_occupancy_status-occupancy_status ((bus_id, client) ∷ rest) h =
    let line = bus_id ++ 9 ∷ client in
    let tail = occupancy_status rest in
    let is_line : IsLine line =
      all_chars-append _ bus_id (9 ∷ client)
      ∙ rw (IsToken-IsLine bus_id h.0.0.1) (unfold all_chars in IsToken-IsLine client h.0.1.1) in
    let split : bus_id ++ 9 ∷ (client ++ 10 ∷ tail) ≡ line ++ 10 ∷ tail =
      sym (append_assoc bus_id (9 ∷ client) (10 ∷ tail)) in
    rw (split, lines-line line tail is_line)
      (rw (occupancy_line-told bus_id client h.0.0 h.0.1)
        (ap (◌∷◌ (bus_id, client)) (parse_remote_occupancy_status-occupancy_status rest h.1)))
