-- ===== src/Versions/Tally.antt =====
-- How often an id stands in a list: what the proofs on the queued ids count with.
use ipadecrypt.Prelude.Text.Laws.{equal_iff, equal_refl}
use ipadecrypt.Prelude.Text.{equal}
use ipadecrypt.Prelude.{
  ℕ, suc, ◌+◌, ◌≤◌, ◌<◌, ◌≡◌, refl, ap, ◌∙◌, sym, subst, arith, Bool, true, false, ◌||◌, Bool-cases,
  inl, inr, List, [], ◌∷◌, ◌++◌, length, Bytes, if◌then◌else◌,
}
use ipadecrypt.Versions.Rows.Kept.{bare, rebuild_predictions-bare}
use ipadecrypt.Versions.Rows.{Row, rebuild_predictions}
use ipadecrypt.Versions.Screen.{mem, delete, update_row, has_row}

abbrev pub one_if : Bool → ℕ
one_if true = 1
one_if false = 0

abbrev pub count : Bytes → List Bytes → ℕ
count a [] = 0
count a (b ∷ bs) = one_if (equal a b) + count a bs

pub count-append : (a : Bytes) (xs ys : List Bytes) → count a (xs ++ ys) ≡ count a xs + count a ys
count-append a [] ys = omega arith
count-append a (x ∷ xs) ys = omega (arith, count-append a xs ys)

pub count-delete_same : (a : Bytes) (xs : List Bytes) → count a (delete a xs) ≡ 0
unfolding delete
count-delete_same a [] = refl
count-delete_same a (b ∷ bs) = elim (Bool-cases (equal a b)) [
  | inl e ↦ rw e (count-delete_same a bs)
  | inr e ↦ ground (arith, e, count-delete_same a bs)
]

pub count-delete_other :
    (a b : Bytes) (xs : List Bytes) → equal a b ≡ false → count a (delete b xs) ≡ count a xs
unfolding delete
count-delete_other a b [] h = refl
count-delete_other a b (c ∷ cs) h = elim (Bool-cases (equal b c)) [
  | inl e ↦
      let same : b ≡ c = (equal_iff b c).0 e in
      let other : equal a c ≡ false = subst (λ d. equal a d ≡ false) same h in
      ground (arith, e, other, count-delete_other a b cs h)
  | inr e ↦ ground (arith, e, count-delete_other a b cs h)
]

pub mem-false : (a : Bytes) (xs : List Bytes) → mem a xs ≡ false → count a xs ≡ 0
unfolding mem
mem-false a [] h = refl
mem-false a (b ∷ bs) h = ground (arith, h, mem-false a bs)

pub mem-true : (a : Bytes) (xs : List Bytes) → mem a xs ≡ true → 0 < count a xs
unfolding mem
mem-true a [] h = cc
mem-true a (b ∷ bs) h = ground (arith, h, mem-true a bs)

-- One copy of an id taken out.
remove : Bytes → List Bytes → List Bytes
remove a [] = []
remove a (b ∷ bs) = let rest = remove a bs in if equal a b then bs else b ∷ rest

remove-length :
    (a : Bytes) (xs : List Bytes) → 0 < count a xs → length xs ≡ suc (length (remove a xs))
unfolding remove
remove-length a [] h = absurd (omega arith)
remove-length a (b ∷ bs) h = elim (Bool-cases (equal a b)) [
  | inl e ↦ rw e refl
  | inr e ↦ ground (arith, e, remove-length a bs)
]

remove-count :
    (a b : Bytes) (xs : List Bytes)
    → 0 < count a xs
    → count b xs ≡ one_if (equal b a) + count b (remove a xs)
unfolding remove
remove-count a b [] h = absurd (omega arith)
remove-count a b (c ∷ cs) h = elim (Bool-cases (equal a c)) [
  | inl e ↦
      let same : a ≡ c = (equal_iff a c).0 e in
      rw e (ap (λ d. one_if (equal b d) + count b cs) (sym same))
  | inr e ↦ ground (arith, e, remove-count a b cs)
]

-- A list that has no id more often than another is no longer.
pub count-length :
    (xs ys : List Bytes) → ((a : Bytes) → count a xs ≤ count a ys) → length xs ≤ length ys
count-length [] ys h = omega arith
count-length (x ∷ xs) ys h =
    let there : 0 < count x ys = ground (arith, h x, equal_refl x) in
    let shorter : length xs ≤ length (remove x ys) =
      count-length xs (remove x ys) (λ a. omega (arith, h a, remove-count x a ys there)) in
    omega (arith, remove-length x ys there)

abbrev pub row_ids : List Row → List Bytes
row_ids [] = []
row_ids (r ∷ rows) = r.ext_ver_id ∷ row_ids rows

pub has_row-mem : (a : Bytes) (rows : List Row) → has_row a rows ≡ mem a (row_ids rows)
unfolding has_row mem
has_row-mem a [] = refl
has_row-mem a (r ∷ rows) = ap (λ b. equal a r.ext_ver_id || b) (has_row-mem a rows)

pub update_row-row_ids :
    (id : Bytes) (f : Row → Row) (rows : List Row)
    → ((r : Row) → (f r).ext_ver_id ≡ r.ext_ver_id)
    → row_ids (update_row id f rows) ≡ row_ids rows
unfolding update_row
update_row-row_ids id f [] h = refl
update_row-row_ids id f (r ∷ rows) h = elim (Bool-cases (equal id r.ext_ver_id)) [
  | inl e ↦ rw e (ap (λ a. a ∷ row_ids rows) (h r))
  | inr e ↦ rw e (ap (◌∷◌ r.ext_ver_id) (update_row-row_ids id f rows h))
]

bare-row_ids : (rows : List Row) → row_ids (bare rows) ≡ row_ids rows
bare-row_ids [] = refl
bare-row_ids (r ∷ rows) = ap (◌∷◌ r.ext_ver_id) (bare-row_ids rows)

pub rebuild_predictions-row_ids :
    (rows : List Row) → row_ids (rebuild_predictions rows) ≡ row_ids rows
rebuild_predictions-row_ids rows =
    sym (bare-row_ids (rebuild_predictions rows))
    ∙ ap row_ids (rebuild_predictions-bare rows)
    ∙ bare-row_ids rows
