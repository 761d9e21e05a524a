-- ===== src/Versions/Keys/Picks.antt =====
-- The cursor stays on a row, and what is picked is there.
use ipadecrypt.Prelude.Int.{ℤ, pos, negsuc, int_eq, int_eq_iff, is_negsuc}
use ipadecrypt.Prelude.Text.Laws.{equal_iff}
use ipadecrypt.Prelude.Text.{equal}
use ipadecrypt.Prelude.{
  ℕ, suc, ◌≤◌, ◌<◌, ◌≡◌, ◌≢◌, refl, ap, ◌∙◌, sym, arith, true, Bool-cases, leb, inl, inr, List, [],
  ◌∷◌, length, Bytes,
}
use ipadecrypt.Versions.Rows.{Row}
use ipadecrypt.Versions.Screen.{Ui, mem, delete, has_row, toggle, at_least, clamp_cursor}
use ipadecrypt.Versions.Tally.{row_ids, has_row-mem}

abbrev pub OnRow : ℤ → List Row → Type 0
OnRow c rows = (i : ℕ) × (c ≡ pos i) × (i < length rows)

-- The picked ids are ids of rows, and only one where one is asked for.
pub record Picked (limit : ℤ) (selected : List Bytes) (rows : List Row) : Type 0 where
  pub in_table : (a : Bytes) → mem a selected ≡ true → mem a (row_ids rows) ≡ true
  pub single : limit ≡ pos 1 → length selected ≤ 1

-- A table without rows has no cursor.
pub record Shown (ui : Ui) : Type 0 where
  pub cursor_in : ui.rows ≢ [] → OnRow ui.cursor ui.rows
  pub picked : Picked ui.selection_limit ui.selected ui.rows

pub clamp_cursor-OnRow : (c : ℤ) (rows : List Row) → rows ≢ [] → OnRow (clamp_cursor c rows) rows
unfolding clamp_cursor is_negsuc at_least
clamp_cursor-OnRow c [] h = absurd (h refl)
clamp_cursor-OnRow (negsuc n) (r ∷ rows) h = (0, ground arith, omega arith)
clamp_cursor-OnRow (pos n) (r ∷ rows) h = elim (Bool-cases (leb (suc (length rows)) n)) [
  | inl e ↦ (length rows, ground (arith, e), omega arith)
  | inr e ↦ (n, ground (arith, e), ground (arith, e))
]

delete-mem : (a b : Bytes) (xs : List Bytes) → mem a (delete b xs) ≡ true → mem a xs ≡ true
unfolding delete mem
delete-mem a b [] h = h
delete-mem a b (x ∷ xs) h = ground (arith, h, delete-mem a b xs)

delete-length : (b : Bytes) (xs : List Bytes) → length (delete b xs) ≤ length xs
unfolding delete
delete-length b [] = omega arith
delete-length b (x ∷ xs) = ground (arith, delete-length b xs)

cons-mem :
    (id : Bytes) (xs all : List Bytes)
    → mem id all ≡ true
    → ((a : Bytes) → mem a xs ≡ true → mem a all ≡ true)
    → (a : Bytes) → mem a (id ∷ xs) ≡ true
    → mem a all ≡ true
unfolding mem
cons-mem id xs all there h a k = elim (Bool-cases (equal a id)) [
  | inl e ↦ ap (λ b. mem b all) ((equal_iff a id).0 e) ∙ there
  | inr e ↦ h a (ground (arith, k, e))
]

pub toggle-Picked :
    (id : Bytes) (limit : ℤ) (selected : List Bytes) (rows : List Row)
    → has_row id rows ≡ true
    → Picked limit selected rows
    → Picked limit (toggle id limit selected) rows
unfolding toggle
toggle-Picked id limit selected rows there p =
    let known : mem id (row_ids rows) ≡ true = sym (has_row-mem id rows) ∙ there in
    elim (Bool-cases (mem id selected)) [
      | inl e ↦ rw e (record {
        in_table = λ a h. p.in_table a (delete-mem a id selected h);
        single = λ one. omega (arith, p.single one, delete-length id selected);
      })
      | inr e ↦ elim (Bool-cases (int_eq limit (pos 1))) [
        | inl k ↦
            rw (e, k)
              (record {
                in_table = cons-mem id [] (row_ids rows) known (λ a h. absurd (nobody a h));
                single = λ one. omega arith;
              })
        | inr k ↦
            rw (e, k)
              (record {
                in_table = cons-mem id selected (row_ids rows) known p.in_table;
                single = λ one. absurd (ground (arith, k, (int_eq_iff limit (pos 1)).1 one));
              })
      ]
    ]
  where
    nobody : (a : Bytes) → mem a [] ≢ true
    nobody a = unfold mem in (λ h. cc)
