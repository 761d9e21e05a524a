-- ===== src/Versions/Keys/Sends.antt =====
-- A key changes the queued ids and the rows together, or neither.
use ipadecrypt.Prelude.Int.{ℤ, pos, negsuc, int_eq}
use ipadecrypt.Prelude.{
  either_branch, ℕ, ◌≡◌, refl, arith, true, false, ◌||◌, Bool-cases, ◌⊎◌, inl, inr, Option, none,
  some, List, [], ◌∷◌, length, ◌==◌, Bytes, get_elem?, zero, suc,
}
use ipadecrypt.Prelude.Text.Laws.{equal_refl}
use ipadecrypt.Versions.Keys.{
  Handled, stays, handle_arrow, handle_escape, handle_done, can_fetch, send_row, enter_row,
  handle_enter, handle_key, handle_input,
}
use ipadecrypt.Versions.Rows.{Row}
use ipadecrypt.Versions.Screen.{
  Ui, mem, update_row, has_row, set_pending, enqueue, row_at, toggle_row, toggle_selected,
  move_cursor, neg, page_size,
}

-- The queued ids and the rows are left alone.
abbrev pub SameRows : Ui → Ui → Type 0
SameRows ui after = (after.queued ≡ ui.queued) × (after.rows ≡ ui.rows)

-- An id of a row that was not queued is sent, and its row is shown as pending.
pub record Sends (ui : Ui) (h : Handled) (id : Bytes) : Type 0 where
  pub sends : h.send ≡ some id
  pub not_queued : mem id ui.queued ≡ false
  pub in_table : has_row id ui.rows ≡ true
  pub then_queued : h.ui.queued ≡ id ∷ ui.queued
  pub then_pending : h.ui.rows ≡ update_row id set_pending ui.rows

abbrev pub Effect : Ui → Handled → Type 0
Effect ui h = ((h.send ≡ none) × SameRows ui h.ui) ⊎ ((id : Bytes) × Sends ui h id)

move_cursor-SameRows : (delta : ℤ) (ui : Ui) → SameRows ui (move_cursor delta ui)
unfolding move_cursor
move_cursor-SameRows delta ui = elim (Bool-cases (length ui.rows == 0)) [
  | inl e ↦ rw e (refl, refl)
  | inr e ↦ rw e (refl, refl)
]

toggle_row-SameRows : (o : Option Row) (ui : Ui) → SameRows ui (toggle_row o ui)
unfolding toggle_row
toggle_row-SameRows none ui = (refl, refl)
toggle_row-SameRows (some r) ui = (refl, refl)

toggle_selected-SameRows : (ui : Ui) → SameRows ui (toggle_selected ui)
unfolding toggle_selected
toggle_selected-SameRows ui = toggle_row-SameRows (row_at ui.cursor ui.rows) ui

quiet : (ui after : Ui) → SameRows ui after → Effect ui (stays after)
quiet ui after h = inl (refl, h)

moved : (delta : ℤ) (ui : Ui) → Effect ui (stays (move_cursor delta ui))
moved delta ui = quiet ui (move_cursor delta ui) (move_cursor-SameRows delta ui)

handle_arrow-Effect : (height c : ℕ) (ui : Ui) → Effect ui (stays (handle_arrow height c ui))
unfolding handle_arrow
handle_arrow-Effect height c ui =
    let P : Ui → Type 0 = λ after. Effect ui (stays after) in
    either_branch P (c == b'A') (moved (negsuc 0) ui) (
      either_branch P (c == b'B') (moved (pos 1) ui) (
        either_branch P (c == b'5') (moved (neg (page_size height)) ui) (
          either_branch P (c == b'6') (moved (pos (page_size height)) ui)
            (quiet ui ui (refl, refl)))))

pub has_row_at :
    (c : ℤ) (rows : List Row) (r : Row) → row_at c rows ≡ some r → has_row r.ext_ver_id rows ≡ true
unfolding row_at has_row
has_row_at (negsuc c) rows r e = cc
has_row_at (pos c) rows r e = at_index c rows e
  where
    at_index :
        (i : ℕ) (rows : List Row) → get_elem? rows i ≡ some r → has_row r.ext_ver_id rows ≡ true
    at_index i [] e = cc
    at_index zero (q ∷ rows) e =
        let same : q ≡ r = cc in ground (arith, same, equal_refl r.ext_ver_id)
    at_index (suc i) (q ∷ rows) e = ground (arith, at_index i rows e)

send_row-Effect : (id : Bytes) (ui : Ui) → has_row id ui.rows ≡ true → Effect ui (send_row id ui)
unfolding send_row enqueue
send_row-Effect id ui there = elim (Bool-cases (mem id ui.queued)) [
  | inl e ↦ rw e (inl (refl, (refl, refl)))
  | inr e ↦ rw e (
      inr (
        id,
        record {
          sends = refl;
          not_queued = e;
          in_table = there;
          then_queued = refl;
          then_pending = refl;
        },
      ))
]

enter_row-Effect :
    (o : Option Row) (ui : Ui)
    → ((r : Row) → o ≡ some r → has_row r.ext_ver_id ui.rows ≡ true)
    → Effect ui (enter_row o ui)
unfolding enter_row
enter_row-Effect none ui there = quiet ui ui (refl, refl)
enter_row-Effect (some r) ui there =
    either_branch (Effect ui) (can_fetch r.state) (send_row-Effect r.ext_ver_id ui (there r refl))
      (quiet ui ui (refl, refl))

handle_enter-Effect : (ui : Ui) → Effect ui (handle_enter ui)
unfolding handle_enter
handle_enter-Effect ui =
    enter_row-Effect (row_at ui.cursor ui.rows) ui (has_row_at ui.cursor ui.rows)

handle_done-Effect : (ui : Ui) → Effect ui (handle_done ui)
unfolding handle_done
handle_done-Effect ui = elim (Bool-cases (int_eq ui.selection_limit (pos 0))) [
  | inl e ↦ rw e (inl (refl, (refl, refl)))
  | inr e ↦ elim (Bool-cases (length ui.selected == 0)) [
    | inl k ↦ rw (e, k) (inl (refl, toggle_selected-SameRows ui))
    | inr k ↦ rw (e, k) (inl (refl, (refl, refl)))
  ]
]

handle_escape-Effect : (height : ℕ) (s : Bytes) (ui : Ui) → Effect ui (handle_escape height s ui)
unfolding handle_escape
handle_escape-Effect height [] ui = inl (refl, (refl, refl))
handle_escape-Effect height (b ∷ []) ui = quiet ui ui (refl, refl)
handle_escape-Effect height (b ∷ c ∷ _) ui =
    either_branch (Effect ui) (b == b'[') (handle_arrow-Effect height c ui)
      (quiet ui ui (refl, refl))

handle_key-Effect : (c : ℕ) (ui : Ui) → Effect ui (handle_key c ui)
unfolding handle_key
handle_key-Effect c ui =
    let P : Handled → Type 0 = Effect ui in
    let still : Effect ui (stays ui) = quiet ui ui (refl, refl) in
    either_branch P (c == b'q' || c == 3 || c == 4) (inl (refl, (refl, refl))) (
      either_branch P (c == b'd') (handle_done-Effect ui) (
        either_branch P (c == b' ')
          (either_branch P (int_eq ui.selection_limit (pos 0)) still
            (quiet ui (toggle_selected ui) (toggle_selected-SameRows ui)))
          (either_branch P (c == 13 || c == 10) (handle_enter-Effect ui) (
            either_branch P (c == b'k') (moved (negsuc 0) ui) (
              either_branch P (c == b'j') (moved (pos 1) ui) (
                either_branch P (c == b'g') (inl (refl, (refl, refl)))
                  (either_branch P (c == b'G') (inl (refl, (refl, refl))) still)))))))

-- Whatever is typed, either nothing is sent and no row changes, or one row's id is sent that was not
-- queued yet.
pub handle_input-Effect :
    (height : ℕ) (buf : Bytes) (ui : Ui) → Effect ui (handle_input height buf ui)
unfolding handle_input
handle_input-Effect height [] ui = quiet ui ui (refl, refl)
handle_input-Effect height (c ∷ s) ui =
    either_branch (Effect ui) (c == 27) (handle_escape-Effect height s ui) (handle_key-Effect c ui)
