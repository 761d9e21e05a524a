-- ===== src/Versions/Screen.antt =====
-- cmd/ipadecrypt/versions_tui.go: the table and what changes it, but for the channels: the keys, the
-- queue's entry and the results. A set of ids is a list without repetitions. What a call sends on
-- `queue` is returned.
use ipadecrypt.Prelude.Int.{ℤ, pos, negsuc, int_eq, add_int, is_negsuc}
use ipadecrypt.Prelude.Text.{equal}
use ipadecrypt.Prelude.{
  ℕ, zero, suc, ◌-◌, Bool, false, not, ◌||◌, Option, none, some, List, [], ◌∷◌, length, get_elem?,
  ltb, leb, ◌==◌, if◌then◌else◌, Bytes,
}
use ipadecrypt.Versions.Entry.{CachedVersion, Raw}
use ipadecrypt.Versions.Rows.{row_pending, row_fetched, row_error, Row, rebuild_predictions}

-- `appstore.VersionMetadata`, without the address and the size, which the table does not use.
pub record VersionMetadata : Type 0 where
  pub external_version_id : Bytes
  pub display_version : Bytes
  pub bundle_version : Bytes
  pub supported_devices : List ℤ
  pub release_date : ℕ
  pub raw : Raw

-- `err` is the error's text.
pub record FetchResult : Type 0 where
  pub ext_ver_id : Bytes
  pub meta : VersionMetadata
  pub min_os : Bytes
  pub err : Option Bytes

-- `saved` are the caches that were given to `save`, the last one first; its error is not looked at.
pub record Ui : Type 0 where
  pub cache : List (Bytes × CachedVersion)
  pub saved : List (List (Bytes × CachedVersion))
  pub rows : List Row
  pub cursor : ℤ
  pub offset : ℤ
  pub queued : List Bytes
  pub selection_limit : ℤ
  pub selected : List Bytes
  pub finished : Bool
  pub aborted : Bool

unfoldable pub mem : Bytes → List Bytes → Bool
mem a [] = false
mem a (b ∷ bs) = equal a b || mem a bs

unfoldable pub delete : Bytes → List Bytes → List Bytes
delete a [] = []
delete a (b ∷ bs) = let rest = delete a bs in if equal a b then rest else b ∷ rest

-- The first row with the id, changed.
unfoldable pub update_row : Bytes → (Row → Row) → List Row → List Row
update_row id f [] = []
update_row id f (r ∷ rows) =
    let rest = update_row id f rows in if equal id r.ext_ver_id then f r ∷ rows else r ∷ rest

unfoldable pub has_row : Bytes → List Row → Bool
has_row id [] = false
has_row id (r ∷ rows) = equal id r.ext_ver_id || has_row id rows

abbrev pub set_pending : Row → Row
set_pending r = record r { state = row_pending; err_msg = [] }

abbrev pub set_error : Bytes → Row → Row
set_error msg r = record r { state = row_error; err_msg = msg }

abbrev pub set_fetched : CachedVersion → Row → Row
set_fetched cv r = record r { state = row_fetched; meta = cv }

-- The table, and the id that is sent.
unfoldable pub enqueue : Bytes → Ui → Ui × Option Bytes
enqueue id ui =
    if mem id ui.queued
    then (ui, none)
    else (record ui { queued = id ∷ ui.queued; rows = update_row id set_pending ui.rows }, some id)

unfoldable pub cached_of : ℕ → FetchResult → CachedVersion
cached_of now res = record {
  fetched_at = now;
  display_version = res.meta.display_version;
  bundle_version = res.meta.bundle_version;
  supported_devices = res.meta.supported_devices;
  minimum_os_version = res.min_os;
  release_date = res.meta.release_date;
  raw = res.meta.raw;
}

-- `m[k] = v` on a map.
unfoldable pub put_entry {ℓ} : {A : Type ℓ} → Bytes → A → List (Bytes × A) → List (Bytes × A)
put_entry k v [] = (k, v) ∷ []
put_entry k v ((key, w) ∷ m) = if equal key k then (k, v) ∷ m else (key, w) ∷ put_entry k v m

-- The row of a result is there.
unfoldable pub store_result : ℕ → FetchResult → Ui → Ui
store_result now res ui = elim res.err [
  | some msg ↦ record ui { rows = update_row res.ext_ver_id (set_error msg) ui.rows }
  | none ↦
      let cv = cached_of now res in
      let cache = put_entry res.meta.external_version_id cv ui.cache in
      record ui {
        rows = rebuild_predictions (update_row res.ext_ver_id (set_fetched cv) ui.rows);
        cache = cache;
        saved = cache ∷ ui.saved;
      }
]

-- `now` is the clock's.
unfoldable pub apply_result : ℕ → FetchResult → Ui → Ui
apply_result now res ui =
    let fewer : Ui = record ui { queued = delete res.ext_ver_id ui.queued } in
    if has_row res.ext_ver_id ui.rows then store_result now res fewer else fewer

unfoldable pub has_pending : Ui → Bool
has_pending ui = not (length ui.queued == 0)

-- The row at the cursor, where the cursor is inside.
unfoldable pub row_at : ℤ → List Row → Option Row
row_at (pos i) rows = get_elem? rows i
row_at (negsuc i) rows = none

-- The set with the id taken out or put in.
unfoldable pub toggle : Bytes → ℤ → List Bytes → List Bytes
toggle id limit selected =
    if mem id selected
    then delete id selected
    else if int_eq limit (pos 1)
    then id ∷ []
    else id ∷ selected

-- At the row of the cursor.
unfoldable pub toggle_row : Option Row → Ui → Ui
toggle_row none ui = ui
toggle_row (some r) ui = record ui { selected = toggle r.ext_ver_id ui.selection_limit ui.selected }

unfoldable pub toggle_selected : Ui → Ui
toggle_selected ui = toggle_row (row_at ui.cursor ui.rows) ui

-- `len(ui.rows) - 1`.
abbrev pub bottom_cursor : List Row → ℤ
bottom_cursor [] = negsuc 0
bottom_cursor (_ ∷ rows) = pos (length rows)

-- `c >= n`.
unfoldable pub at_least : ℤ → ℕ → Bool
at_least (pos c) n = leb n c
at_least (negsuc c) n = false

unfoldable pub clamp_cursor : ℤ → List Row → ℤ
clamp_cursor c rows =
    let raised = if is_negsuc c then pos 0 else c in
    if at_least raised (length rows) then bottom_cursor rows else raised

unfoldable pub move_cursor : ℤ → Ui → Ui
move_cursor delta ui =
    if length ui.rows == 0
    then ui
    else record ui { cursor = clamp_cursor (add_int ui.cursor delta) ui.rows }

-- `-n` for a number from 1 on.
abbrev pub neg : ℕ → ℤ
neg zero = pos 0
neg (suc n) = negsuc n

-- `height` is the terminal's.
unfoldable pub page_size : ℕ → ℕ
page_size height = if ltb (height - 6) 1 then 1 else height - 6

unfoldable pub selected_among : List Bytes → List Row → List Bytes
selected_among selected [] = []
selected_among selected (r ∷ rows) =
    let more = selected_among selected rows in
    if mem r.ext_ver_id selected then r.ext_ver_id ∷ more else more

unfoldable pub selected_ext_ver_ids : Ui → List Bytes
selected_ext_ver_ids ui = selected_among ui.selected ui.rows
