-- ===== src/Prelude/Text/Laws.antt =====
-- The laws of the string operations.
use ipadecrypt.Prelude.Text.{equal, has_prefix, has_suffix, onto_first, split, join}
use ipadecrypt.Prelude.{
  ℕ, zero, suc, ◌-◌, ◌≡◌, ◌≢◌, ◌↔◌, refl, sym, ap, ◌∙◌, true, false, arith, ◌==◌, List, [], ◌∷◌,
  ◌++◌, length, length-append, take, drop, All, Bytes, Bool-cases, inl, inr,
}

pub equal_iff : (s t : Bytes) → (equal s t ≡ true) ↔ (s ≡ t)
unfolding equal
equal_iff [] [] = ground arith
equal_iff [] (d ∷ t) = ground arith
equal_iff (c ∷ s) [] = ground arith
equal_iff (c ∷ s) (d ∷ t) = ground (arith, equal_iff s t)

pub equal_refl : (a : Bytes) → equal a a ≡ true
equal_refl a = (equal_iff a a).1 refl

pub take-append-drop : (n : ℕ) (s : Bytes) → take n s ++ drop n s ≡ s
take-append-drop zero s = refl
take-append-drop (suc n) [] = refl
take-append-drop (suc n) (x ∷ s) = rw (take-append-drop n s)

pub take_append : (a b : Bytes) → take (length a) (a ++ b) ≡ a
take_append [] b = refl
take_append (x ∷ a) b = ap (◌∷◌ x) (take_append a b)

pub drop_append : (a b : Bytes) → drop (length a) (a ++ b) ≡ b
drop_append [] b = refl
drop_append (x ∷ a) b = drop_append a b

pub has_prefix_iff : (s p : Bytes) → (has_prefix s p ≡ true) ↔ ((r : Bytes) × (s ≡ p ++ r))
unfolding has_prefix
has_prefix_iff s p = (sound, complete)
  where
    sound : has_prefix s p ≡ true → (r : Bytes) × (s ≡ p ++ r)
    sound h =
        let e : take (length p) s ≡ p = (equal_iff _ _).0 (ground arith) in
        (
          drop (length p) s,
          sym (take-append-drop (length p) s) ∙ ap (λ t. t ++ drop (length p) s) e,
        )

    complete : (r : Bytes) × (s ≡ p ++ r) → has_prefix s p ≡ true
    complete (r, e) = rw (e, take_append, equal_refl) (ground (arith, length-append p r))

pub has_suffix_iff : (s p : Bytes) → (has_suffix s p ≡ true) ↔ ((r : Bytes) × (s ≡ r ++ p))
unfolding has_suffix
has_suffix_iff s p = (sound, complete)
  where
    sound : has_suffix s p ≡ true → (r : Bytes) × (s ≡ r ++ p)
    sound h =
        let n = length s - length p in
        let e : drop n s ≡ p = (equal_iff _ _).0 (ground arith) in
        (take n s, sym (take-append-drop n s) ∙ ap (λ t. take n s ++ t) e)

    complete : (r : Bytes) × (s ≡ r ++ p) → has_suffix s p ≡ true
    complete (r, e) =
        let n : length (r ++ p) - length p ≡ length r = omega (arith, length-append r p) in
        rw (e, n, drop_append, equal_refl) (ground (arith, length-append r p))

join-onto_first :
    (sep c : ℕ) (pieces : List Bytes)
    → pieces ≢ []
    → join sep (onto_first c pieces) ≡ c ∷ join sep pieces
unfolding join onto_first
join-onto_first sep c [] h = absurd (h refl)
join-onto_first sep c (p ∷ []) h = refl
join-onto_first sep c (p ∷ q ∷ ps) h = refl

split-ne-nil : (sep : ℕ) (s : Bytes) → split sep s ≢ []
unfolding split
split-ne-nil sep [] = λ e. cc
split-ne-nil sep (c ∷ s) = ground (arith)

join-cons :
    (sep : ℕ) (pieces : List Bytes) → pieces ≢ [] → join sep ([] ∷ pieces) ≡ sep ∷ join sep pieces
unfolding join
join-cons sep [] h = absurd (h refl)
join-cons sep (p ∷ ps) h = refl

-- Joining the pieces of a string gives the string back.
pub join-split : (sep : ℕ) (s : Bytes) → join sep (split sep s) ≡ s
unfolding split
join-split sep [] = unfold join in refl
join-split sep (c ∷ s) = elim (Bool-cases (c == sep)) [
  | inl e ↦ rw e (join-cons sep _ (split-ne-nil sep s) ∙ ground (arith, join-split sep s))
  | inr e ↦ rw e (join-onto_first sep c _ (split-ne-nil sep s) ∙ ground (arith, join-split sep s))
]

-- No byte of the string is `sep`.
abbrev pub Free : ℕ → Bytes → Type 0
Free sep s = All (λ c. (c == sep) ≡ false) s

pub split_whole : (sep : ℕ) (s : Bytes) → Free sep s → split sep s ≡ s ∷ []
unfolding split onto_first
split_whole sep [] h = refl
split_whole sep (c ∷ s) (h, t) = rw (h, split_whole sep s t)

pub split_append :
    (sep : ℕ) (a s : Bytes) → Free sep a → split sep (a ++ (sep ∷ s)) ≡ a ∷ split sep s
unfolding split onto_first
split_append sep [] s h = ground arith
split_append sep (c ∷ a) s (h, t) = rw (h, split_append sep a s t)

onto_first-snoc :
    (c : ℕ) (ps : List Bytes) (q : Bytes)
    → ps ≢ []
    → onto_first c (ps ++ q ∷ []) ≡ onto_first c ps ++ q ∷ []
unfolding onto_first
onto_first-snoc c [] q h = absurd (h refl)
onto_first-snoc c (p ∷ ps) q h = refl

-- A separator at the end adds an empty piece.
pub split-snoc : (sep : ℕ) (s : Bytes) → split sep (s ++ sep ∷ []) ≡ split sep s ++ [] ∷ []
unfolding split onto_first
split-snoc sep [] = ground arith
split-snoc sep (c ∷ s) = elim (Bool-cases (c == sep)) [
  | inl e ↦ rw (e, split-snoc sep s)
  | inr e ↦ rw (e, split-snoc sep s) (onto_first-snoc c (split sep s) [] (split-ne-nil sep s))
]

onto_first-Free :
    (sep c : ℕ) (ps : List Bytes)
    → (c == sep) ≡ false
    → All (Free sep) ps
    → All (Free sep) (onto_first c ps)
unfolding onto_first
onto_first-Free sep c [] e h = ((e, tt), tt)
onto_first-Free sep c (p ∷ ps) e h = ((e, h.0), h.1)

-- No piece holds the separator.
pub split-Free : (sep : ℕ) (s : Bytes) → All (Free sep) (split sep s)
unfolding split
split-Free sep [] = (tt, tt)
split-Free sep (c ∷ s) = elim (Bool-cases (c == sep)) [
  | inl e ↦ rw e (tt, split-Free sep s)
  | inr e ↦ rw e (onto_first-Free sep c (split sep s) e (split-Free sep s))
]
