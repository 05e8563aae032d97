-- ===== src/Tui/Frame.antt =====
-- The frames of `draw_items` of src/tui.rs, as the lines that it prints, without the line ends and the
-- colours of the status bar.
use lusbip.Base.{
  ℕ, zero, suc, ◌+◌, ◌-◌, ◌/◌, ◌%◌, Bool, true, false, ◌||◌, List, [], ◌∷◌, ◌++◌, Option, none,
  some, Text, text_eq, any, length, take, drop, replicate, min, max, ◌==◌, ltb, leb, if◌then◌else◌,
}
use lusbip.Agent.Control.{TuiItem}
use lusbip.Client.Texts.{starts_with}
use lusbip.Client.Labels.{checked, unchecked}
use lusbip.Client.Selection.{truncate_to_width}
use lusbip.Tui.Refresh.{ProcessingIndicator, error_prefix, pending_ids}

pub data Color : Type 0 where
  dark_grey grey white green yellow red dark_red : Color

pub record Line : Type 0 where
  pub text : Text
  pub foreground : Color
  pub background : Option Color

-- `str::contains`.
unfoldable pub contains_text : Text → Text → Bool
contains_text p [] = starts_with p []
contains_text p (c ∷ cs) = starts_with p (c ∷ cs) || contains_text p cs

-- A number in decimal digits, of which there are at most `fuel`, in front of a text.
unfoldable pub digits : ℕ → ℕ → Text → Text
digits zero n text = text
digits (suc fuel) n text =
    let next = (48 + n % 10) ∷ text in
    let rest = digits fuel (n / 10) next in if ltb n 10 then next else rest

unfoldable pub spinner_frame : ℕ → Text
spinner_frame frame =
    let k = frame % 4 in
    if k == 0 then 124 ∷ [] else if k == 1 then 47 ∷ [] else if k == 2 then 45 ∷ [] else 92 ∷ []

unfoldable pub label_with_spinner : Text → ℕ → Text
label_with_spinner label frame = label ++ 32 ∷ 32 ∷ spinner_frame frame

-- `[!]`, `occupied by`, `locked by`.
abbrev pub warned : Text
warned = 91 ∷ 33 ∷ 93 ∷ []

abbrev pub occupied_by : Text
occupied_by = 111 ∷ 99 ∷ 99 ∷ 117 ∷ 112 ∷ 105 ∷ 101 ∷ 100 ∷ 32 ∷ 98 ∷ 121 ∷ []

abbrev pub locked_by : Text
locked_by = 108 ∷ 111 ∷ 99 ∷ 107 ∷ 101 ∷ 100 ∷ 32 ∷ 98 ∷ 121 ∷ []

unfoldable pub row_color_for_label : Text → Bool → Color
row_color_for_label label is_processing =
    if is_processing
    then yellow
    else if starts_with checked label
    then green
    else if starts_with warned label
        || contains_text occupied_by label
        || contains_text locked_by label
    then dark_red
    else white

unfoldable pub pad_to_width : Text → ℕ → Text
pad_to_width value width =
    let cut = truncate_to_width value width in cut ++ replicate (width - length cut) 32

-- The lines of the frame itself.
unfoldable pub top_border : Text → ℕ → Text
top_border title width =
    let prefix = 9484 ∷ 32 ∷ (truncate_to_width title (width - 6) ++ 32 ∷ []) in
    prefix ++ (replicate (width - (length prefix + 1)) 9472 ++ 9488 ∷ [])

unfoldable pub bottom_border : ℕ → Text
bottom_border width = 9492 ∷ (replicate (width - 2) 9472 ++ 9496 ∷ [])

unfoldable pub draw_separator : ℕ → Line
draw_separator width = record {
  text = 9500 ∷ (replicate (width - 2) 9472 ++ 9508 ∷ []);
  foreground = dark_grey;
  background = none;
}

unfoldable pub draw_content_line : Text → ℕ → Color → Option Color → Line
draw_content_line text width foreground background = record {
  text = 9474 ∷ (pad_to_width text width ++ 9474 ∷ []);
  foreground = foreground;
  background = background;
}

-- ` LUSBIP`, and what the keys do.
abbrev pub brand : Text
brand = 32 ∷ 76 ∷ 85 ∷ 83 ∷ 66 ∷ 73 ∷ 80 ∷ []

abbrev pub controls : Text
controls =
    32 ∷ 32 ∷ 8593 ∷ 8595 ∷ 47 ∷ 106 ∷ 47 ∷ 107 ∷ 32 ∷ 77 ∷ 111 ∷ 118 ∷ 101 ∷ 32 ∷ 32 ∷ 83 ∷ 112
    ∷ 97 ∷ 99 ∷ 101 ∷ 32 ∷ 65 ∷ 116 ∷ 116 ∷ 97 ∷ 99 ∷ 104 ∷ 47 ∷ 68 ∷ 101 ∷ 116 ∷ 97 ∷ 99 ∷ 104 ∷ 32
    ∷ 32 ∷ 69 ∷ 115 ∷ 99 ∷ 32 ∷ 66 ∷ 97 ∷ 99 ∷ 107 ∷ 103 ∷ 114 ∷ 111 ∷ 117 ∷ 110 ∷ 100 ∷ 32 ∷ 32
    ∷ 67 ∷ 116 ∷ 114 ∷ 108 ∷ 43 ∷ 67 ∷ 32 ∷ 68 ∷ 101 ∷ 116 ∷ 97 ∷ 99 ∷ 104 ∷ 32 ∷ 38 ∷ 32 ∷ 81 ∷ 117
    ∷ 105 ∷ 116 ∷ []

unfoldable pub draw_status_bar : ℕ → Line
draw_status_bar width =
    let label_width = min width 8 in
    record {
      text =
          9474
          ∷ (pad_to_width brand label_width
              ++ (pad_to_width controls (width - label_width) ++ 9474 ∷ []));
      foreground = white;
      background = none;
    }

-- ` No USB devices are currently exported. Waiting for hotplug...`, and what is said of more.
abbrev pub no_devices : Text
no_devices =
    32 ∷ 78 ∷ 111 ∷ 32 ∷ 85 ∷ 83 ∷ 66 ∷ 32 ∷ 100 ∷ 101 ∷ 118 ∷ 105 ∷ 99 ∷ 101 ∷ 115 ∷ 32 ∷ 97 ∷ 114
    ∷ 101 ∷ 32 ∷ 99 ∷ 117 ∷ 114 ∷ 114 ∷ 101 ∷ 110 ∷ 116 ∷ 108 ∷ 121 ∷ 32 ∷ 101 ∷ 120 ∷ 112 ∷ 111
    ∷ 114 ∷ 116 ∷ 101 ∷ 100 ∷ 46 ∷ 32 ∷ 87 ∷ 97 ∷ 105 ∷ 116 ∷ 105 ∷ 110 ∷ 103 ∷ 32 ∷ 102 ∷ 111 ∷ 114
    ∷ 32 ∷ 104 ∷ 111 ∷ 116 ∷ 112 ∷ 108 ∷ 117 ∷ 103 ∷ 46 ∷ 46 ∷ 46 ∷ []

abbrev pub exported : Text
exported =
    32 ∷ 100 ∷ 101 ∷ 118 ∷ 105 ∷ 99 ∷ 101 ∷ 40 ∷ 115 ∷ 41 ∷ 32 ∷ 101 ∷ 120 ∷ 112 ∷ 111 ∷ 114 ∷ 116
    ∷ 101 ∷ 100 ∷ 46 ∷ 32 ∷ 83 ∷ 112 ∷ 97 ∷ 99 ∷ 101 ∷ 32 ∷ 116 ∷ 111 ∷ 103 ∷ 103 ∷ 108 ∷ 101 ∷ 115
    ∷ 32 ∷ 116 ∷ 104 ∷ 101 ∷ 32 ∷ 115 ∷ 101 ∷ 108 ∷ 101 ∷ 99 ∷ 116 ∷ 101 ∷ 100 ∷ 32 ∷ 112 ∷ 111
    ∷ 114 ∷ 116 ∷ 46 ∷ []

unfoldable pub summary : ℕ → Text
summary zero = no_devices
summary (suc n) = 32 ∷ digits (suc n) (suc n) exported

unfoldable pub list_height : ℕ → ℕ
list_height rows = max (rows - 7) 1

unfoldable pub first_visible : ℕ → ℕ → ℕ
first_visible selected height = if leb height selected then selected + 1 - height else 0

unfoldable pub checkbox : Bool → Bool → Text
checkbox false is_chosen = []
checkbox true true = checked ++ 32 ∷ []
checkbox true false = unchecked ++ 32 ∷ []

unfoldable pub frame_of : Option ProcessingIndicator → ℕ
frame_of none = 0
frame_of (some processing) = processing.frame

-- What a frame shows besides its items.
pub record View : Type 0 where
  pub title : Text
  pub selected : ℕ
  pub chosen : List ℕ
  pub show_checkboxes : Bool
  pub message : Option Text
  pub processing : Option ProcessingIndicator

unfoldable pub item_line : View → ℕ → ℕ → TuiItem → Line
item_line v inner_width index item =
    let is_selected = v.selected == index in
    let is_processing = any (text_eq item.id) (pending_ids v.processing) in
    let marker = if is_selected then 62 else 32 in
    let label =
      if is_processing then label_with_spinner item.label (frame_of v.processing) else item.label in
    draw_content_line
      (32 ∷ marker ∷ 32 ∷ (checkbox v.show_checkboxes (any (λ i. i == index) v.chosen) ++ label))
      inner_width (row_color_for_label item.label is_processing)
      (if is_selected then some dark_grey else none)

unfoldable pub item_lines : View → ℕ → ℕ → List TuiItem → List Line
item_lines v inner_width index [] = []
item_lines v inner_width index (item ∷ items) =
    item_line v inner_width index item ∷ item_lines v inner_width (suc index) items

-- The visible items, and empty lines below them.
unfoldable pub list_lines : View → ℕ → ℕ → List TuiItem → List Line
list_lines v inner_width height items =
    let start = first_visible v.selected height in
    let visible = take height (drop start items) in
    item_lines v inner_width start visible
    ++ replicate (height - length visible) (draw_content_line [] inner_width grey none)

unfoldable pub message_lines : ℕ → Option Text → List Line
message_lines width none = []
message_lines width (some message) =
    draw_separator width
    ∷ draw_content_line (32 ∷ message) (width - 2)
        (if starts_with error_prefix message then red else yellow) none
    ∷ []

-- The lines in a terminal of `cols` columns and `rows` rows.
unfoldable pub draw_items : ℕ → ℕ → View → List TuiItem → List Line
draw_items cols rows v items =
    let width = max cols 4 in
    record { text = top_border v.title width; foreground = dark_grey; background = none }
    ∷ draw_content_line (summary (length items)) (width - 2) dark_grey none
    ∷ draw_separator width
    ∷ (list_lines v (width - 2) (list_height rows) items
        ++ (message_lines width v.message
            ++ (draw_separator width
                ∷ draw_status_bar (width - 2)
                ∷ record { text = bottom_border width; foreground = dark_grey; background = none }
                ∷ [])))
