-- ===== src/Versions/Keys/Shown.antt =====
-- Every key keeps the cursor and the picked ids in the table.
use ipadecrypt.Prelude.Int.{ℤ, pos, negsuc, int_eq, add_int}
use ipadecrypt.Prelude.{
  either_branch, ℕ, suc, ◌≡◌, ◌≢◌, refl, ap, ◌∙◌, sym, arith, Bool, true, ◌||◌, Bool-cases, ◌⊎◌,
  inl, inr, Option, none, some, List, [], ◌∷◌, length, ◌==◌, if◌then◌else◌, Bytes,
}
use ipadecrypt.Versions.Keys.Picks.{OnRow, Picked, Shown, clamp_cursor-OnRow, toggle-Picked}
use ipadecrypt.Versions.Keys.Sends.{has_row_at}
use ipadecrypt.Versions.Keys.{
  Handled, handle_arrow, handle_escape, handle_done, can_fetch, send_row, enter_row, handle_enter,
  handle_key, handle_input,
}
use ipadecrypt.Versions.Rows.{Row}
use ipadecrypt.Versions.Screen.{
  Ui, mem, has_row, update_row, set_pending, enqueue, row_at, toggle_row, toggle_selected,
  bottom_cursor, move_cursor, neg, page_size,
}
use ipadecrypt.Versions.Tally.{row_ids, update_row-row_ids}

-- Whether the table has rows, and which ids, is all that the rows are asked for.
shown :
    (ui after : Ui)
    → OnRow after.cursor after.rows ⊎ (after.cursor ≡ ui.cursor)
    → row_ids after.rows ≡ row_ids ui.rows
    → Picked after.selection_limit after.selected ui.rows
    → Shown ui
    → Shown after
shown ui after on e p s = record {
  cursor_in = λ h. cursor_in on h;
  picked = record { in_table = λ a h. ap (mem a) e ∙ p.in_table a h; single = p.single };
}
  where
    lengths : (rows : List Row) → length (row_ids rows) ≡ length rows
    lengths [] = refl
    lengths (r ∷ rows) = ap suc (lengths rows)

    empty : (rows : List Row) → length rows ≡ 0 → rows ≡ []
    empty [] h = refl
    empty (r ∷ rows) h = absurd (omega arith)

    same_length : length after.rows ≡ length ui.rows
    same_length = sym (lengths after.rows) ∙ ap length e ∙ lengths ui.rows

    cursor_in :
        OnRow after.cursor after.rows ⊎ (after.cursor ≡ ui.cursor)
        → after.rows ≢ []
        → OnRow after.cursor after.rows
    cursor_in (inl r) h = r
    cursor_in (inr k) h =
        let before : ui.rows ≢ [] =
          λ e'. h (empty after.rows (omega (arith, ap length e', same_length))) in
        let on' : OnRow ui.cursor ui.rows = s.cursor_in before in
        (on'.0, k ∙ on'.1, omega (arith, on'.2, same_length))

move_cursor-Shown : (delta : ℤ) (ui : Ui) → Shown ui → Shown (move_cursor delta ui)
unfolding move_cursor
move_cursor-Shown delta ui s = elim (Bool-cases (length ui.rows == 0)) [
  | inl e ↦ rw e s
  | inr e ↦ rw e (record {
    cursor_in = λ h. clamp_cursor-OnRow (add_int ui.cursor delta) ui.rows h;
    picked = s.picked;
  })
]

toggle_row-Shown :
    (o : Option Row) (ui : Ui)
    → ((r : Row) → o ≡ some r → has_row r.ext_ver_id ui.rows ≡ true)
    → Shown ui
    → Shown (toggle_row o ui)
unfolding toggle_row
toggle_row-Shown none ui there s = s
toggle_row-Shown (some r) ui there s = record {
  cursor_in = s.cursor_in;
  picked =
      toggle-Picked r.ext_ver_id ui.selection_limit ui.selected ui.rows (there r refl) s.picked;
}

toggle_selected-Shown : (ui : Ui) → Shown ui → Shown (toggle_selected ui)
unfolding toggle_selected
toggle_selected-Shown ui =
    toggle_row-Shown (row_at ui.cursor ui.rows) ui (has_row_at ui.cursor ui.rows)

-- The flags are no part of it.
flagged :
    (ui : Ui) (finished aborted : Bool)
    → Shown ui
    → Shown (record ui { finished = finished; aborted = aborted })
flagged ui finished aborted s = record { cursor_in = s.cursor_in; picked = s.picked }

handle_arrow-Shown : (height c : ℕ) (ui : Ui) → Shown ui → Shown (handle_arrow height c ui)
unfolding handle_arrow
handle_arrow-Shown height c ui s =
    either_branch Shown (c == b'A') (move_cursor-Shown (negsuc 0) ui s) (
      either_branch Shown (c == b'B') (move_cursor-Shown (pos 1) ui s) (
        either_branch Shown (c == b'5') (move_cursor-Shown (neg (page_size height)) ui s)
          (either_branch Shown (c == b'6') (move_cursor-Shown (pos (page_size height)) ui s) s)))

abbrev Stays : Handled → Type 0
Stays h = Shown h.ui

handle_escape-Shown :
    (height : ℕ) (b : Bytes) (ui : Ui) → Shown ui → Stays (handle_escape height b ui)
unfolding handle_escape
handle_escape-Shown height [] ui s = flagged ui ui.finished true s
handle_escape-Shown height (b ∷ []) ui s = s
handle_escape-Shown height (b ∷ c ∷ _) ui s =
    either_branch Stays (b == b'[') (handle_arrow-Shown height c ui s) s

handle_done-Shown : (ui : Ui) → Shown ui → Stays (handle_done ui)
unfolding handle_done
handle_done-Shown ui s =
    let after : Ui = if length ui.selected == 0 then toggle_selected ui else ui in
    either_branch Stays (int_eq ui.selection_limit (pos 0)) s (
      flagged after true after.aborted
        (either_branch Shown (length ui.selected == 0) (toggle_selected-Shown ui s) s))

enqueue-Shown : (id : Bytes) (ui : Ui) → Shown ui → Stays (send_row id ui)
unfolding send_row enqueue
enqueue-Shown id ui s = elim (Bool-cases (mem id ui.queued)) [
  | inl e ↦ rw e s
  | inr e ↦ rw e (
      shown ui (record ui { queued = id ∷ ui.queued; rows = update_row id set_pending ui.rows })
        (inr refl) (update_row-row_ids id set_pending ui.rows (λ _. refl)) s.picked s)
]

enter_row-Shown : (o : Option Row) (ui : Ui) → Shown ui → Stays (enter_row o ui)
unfolding enter_row
enter_row-Shown none ui s = s
enter_row-Shown (some r) ui s =
    either_branch Stays (can_fetch r.state) (enqueue-Shown r.ext_ver_id ui s) s

handle_enter-Shown : (ui : Ui) → Shown ui → Stays (handle_enter ui)
unfolding handle_enter
handle_enter-Shown ui = enter_row-Shown (row_at ui.cursor ui.rows) ui

first_row : (rows : List Row) → rows ≢ [] → OnRow (pos 0) rows
first_row [] h = absurd (h refl)
first_row (r ∷ rows) h = (0, refl, omega arith)

last_row : (rows : List Row) → rows ≢ [] → OnRow (bottom_cursor rows) rows
last_row [] h = absurd (h refl)
last_row (r ∷ rows) h = (length rows, refl, omega arith)

handle_key-Shown : (c : ℕ) (ui : Ui) → Shown ui → Stays (handle_key c ui)
unfolding handle_key
handle_key-Shown c ui s =
    either_branch Stays (c == b'q' || c == 3 || c == 4) (flagged ui ui.finished true s) (
      either_branch Stays (c == b'd') (handle_done-Shown ui s) (
        either_branch Stays (c == b' ')
          (either_branch Stays (int_eq ui.selection_limit (pos 0)) s (toggle_selected-Shown ui s))
          (either_branch Stays (c == 13 || c == 10) (handle_enter-Shown ui s) (
            either_branch Stays (c == b'k') (move_cursor-Shown (negsuc 0) ui s) (
              either_branch Stays (c == b'j') (move_cursor-Shown (pos 1) ui s) (
                either_branch Stays (c == b'g')
                  (record { cursor_in = first_row ui.rows; picked = s.picked })
                  (either_branch Stays (c == b'G')
                    (record { cursor_in = last_row ui.rows; picked = s.picked }) s)))))))

-- Whatever bytes are typed, the cursor stays on a row, where there is one, and the picked ids are
-- ids of rows, one at most where a single version is asked for.
pub handle_input-Shown :
    (height : ℕ) (buf : Bytes) (ui : Ui) → Shown ui → Shown (handle_input height buf ui).ui
unfolding handle_input
handle_input-Shown height [] ui s = s
handle_input-Shown height (c ∷ b) ui s =
    either_branch Stays (c == 27) (handle_escape-Shown height b ui s) (handle_key-Shown c ui s)
