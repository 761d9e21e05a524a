-- ===== src/Versions/Keys.antt =====
-- cmd/ipadecrypt/versions_tui.go: `handleInput` and the result of `runVersionsUI`.
pub mod Sends
pub mod Picks
pub mod Shown
use ipadecrypt.Prelude.Int.{ℤ, pos, negsuc, int_eq}
use ipadecrypt.Prelude.{
  ℕ, zero, suc, Bool, true, false, not, ◌&&◌, ◌||◌, Option, none, some, List, [], ◌∷◌, length, ltb,
  leb, ◌==◌, if◌then◌else◌, Bytes,
}
use ipadecrypt.Versions.Rows.{RowState, row_unfetched, row_pending, row_fetched, row_error, Row}
use ipadecrypt.Versions.Screen.{
  Ui, enqueue, row_at, toggle_selected, bottom_cursor, move_cursor, neg, page_size,
  selected_ext_ver_ids,
}

-- The table, what is sent, and whether the loop is left.
pub record Handled : Type 0 where
  pub ui : Ui
  pub send : Option Bytes
  pub leave : Bool

abbrev pub stays : Ui → Handled
stays ui = record { ui = ui; send = none; leave = false }

abbrev pub leaves : Ui → Handled
leaves ui = record { ui = ui; send = none; leave = true }

-- `ESC [` and a letter or digit, in a terminal of `height` lines.
unfoldable pub handle_arrow : ℕ → ℕ → Ui → Ui
handle_arrow height c ui =
    if c == b'A'
    then move_cursor (negsuc 0) ui
    else if c == b'B'
    then move_cursor (pos 1) ui
    else if c == b'5'
    then move_cursor (neg (page_size height)) ui
    else if c == b'6'
    then move_cursor (pos (page_size height)) ui
    else ui

-- What follows an escape byte.
unfoldable pub handle_escape : ℕ → Bytes → Ui → Handled
handle_escape height [] ui = leaves (record ui { aborted = true })
handle_escape height (b ∷ []) ui = stays ui
handle_escape height (b ∷ c ∷ _) ui =
    if b == b'[' then stays (handle_arrow height c ui) else stays ui

-- `d`.
unfoldable pub handle_done : Ui → Handled
handle_done ui =
    if int_eq ui.selection_limit (pos 0)
    then stays ui
    else leaves
        (record (if length ui.selected == 0 then toggle_selected ui else ui) { finished = true })

abbrev pub can_fetch : RowState → Bool
can_fetch row_unfetched = true
can_fetch row_error = true
can_fetch row_pending = false
can_fetch row_fetched = false

unfoldable pub send_row : Bytes → Ui → Handled
send_row id ui = let r = enqueue id ui in record { ui = r.0; send = r.1; leave = false }

-- Enter, at the row of the cursor.
unfoldable pub enter_row : Option Row → Ui → Handled
enter_row none ui = stays ui
enter_row (some r) ui = if can_fetch r.state then send_row r.ext_ver_id ui else stays ui

unfoldable pub handle_enter : Ui → Handled
handle_enter ui = enter_row (row_at ui.cursor ui.rows) ui

-- Ctrl-C is 3 and Ctrl-D is 4.
unfoldable pub handle_key : ℕ → Ui → Handled
handle_key c ui =
    if c == b'q' || c == 3 || c == 4
    then leaves (record ui { aborted = true })
    else if c == b'd'
    then handle_done ui
    else if c == b' '
    then if int_eq ui.selection_limit (pos 0) then stays ui else stays (toggle_selected ui)
    else if c == 13 || c == 10
    then handle_enter ui
    else if c == b'k'
    then stays (move_cursor (negsuc 0) ui)
    else if c == b'j'
    then stays (move_cursor (pos 1) ui)
    else if c == b'g'
    then stays (record ui { cursor = pos 0; offset = pos 0 })
    else if c == b'G'
    then stays (record ui { cursor = bottom_cursor ui.rows })
    else stays ui

unfoldable pub handle_input : ℕ → Bytes → Ui → Handled
handle_input height [] ui = stays ui
handle_input height (c ∷ s) ui = if c == 27 then handle_escape height s ui else handle_key c ui

-- What `runVersionsUI` returns at its end; `none` is `errVersionSelectionAborted`.
unfoldable pub run_result : Ui → Option (List Bytes)
run_result ui =
    if ui.aborted
    then none
    else if int_eq ui.selection_limit (pos 0)
    then some []
    else if ui.finished && ltb 0 (length (selected_ext_ver_ids ui))
    then some (selected_ext_ver_ids ui)
    else none

-- `runSingleVersionPicker`, from that result on.
unfoldable pub single_result : Option (List Bytes) → Option Bytes
single_result none = none
single_result (some []) = none
single_result (some (id ∷ _)) = some id
