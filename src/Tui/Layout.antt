-- ===== src/Tui/Layout.antt =====
-- What the frames of src/tui.rs measure, and that the selected item is on them.
use lusbip.Base.{ℕ, ◌≡◌, Option, none, some, Text, length}
use lusbip.Tui.Frame.{Line}

abbrev pub HasWidth : ℕ → Line → Type 0
HasWidth width line = length line.text ≡ width

-- The lines of a message.
abbrev pub extra : Option Text → ℕ
extra none = 0
extra (some message) = 2
