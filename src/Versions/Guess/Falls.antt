-- ===== src/Versions/Guess/Falls.antt =====
-- The guesses fall strictly from the newer bound to the older one.
use ipadecrypt.Prelude.{
  ℕ, zero, suc, ◌+◌, ◌-◌, ◌≤◌, ◌<◌, ◌^◌, ◌≡◌, refl, ap, ◌∙◌, sym, subst, ◌⊎◌, inl, inr, true, false,
  arith, ltb, ◌==◌, Bool-cases, ltb→lt, Option, none, some, List, [], ◌∷◌, ◌++◌, map, length,
  get_elem?, drop, add64,
}
use ipadecrypt.Versions.Guess.{version, countdown, descent, hotfixes, blanks, bottom}
use ipadecrypt.Versions.Semver.{Semver}

-- Older in the same major version.
abbrev pub Precedes : Semver → Semver → Type 0
Precedes a b =
    (a.major ≡ b.major) × ((a.minor < b.minor) ⊎ ((a.minor ≡ b.minor) × (a.patch < b.patch)))

Precedes-trans : (a b c : Semver) → Precedes a b → Precedes b c → Precedes a c
Precedes-trans a b c (m, inl h) (n, inl k) = (m ∙ n, inl (omega arith))
Precedes-trans a b c (m, inl h) (n, inr k) = (m ∙ n, inl (omega (arith, k.0)))
Precedes-trans a b c (m, inr h) (n, inl k) = (m ∙ n, inl (omega (arith, h.0)))
Precedes-trans a b c (m, inr h) (n, inr k) = (m ∙ n, inr (h.0 ∙ k.0, omega (arith, h.1, k.1)))

Precedes-lex :
    (a b : Semver) → a.major ≡ b.major → a.minor ≤ b.minor → a.patch < b.patch → Precedes a b
Precedes-lex a b e m p = elim (Bool-cases (ltb a.minor b.minor)) [
  | inl h ↦ (e, inl (ltb→lt a.minor b.minor h))
  | inr h ↦ (e, inr (ground (arith, h, m), p))
]

-- The guesses, blanks left out, are each older than the one above, the first older than `hi` and
-- the last newer than `lo`.
abbrev pub Falls : Semver → List (Option Semver) → Semver → Type 0
Falls hi [] lo = Precedes lo hi
Falls hi (none ∷ xs) lo = Falls hi xs lo
Falls hi (some v ∷ xs) lo = Precedes v hi × Falls v xs lo

Falls-append :
    (hi : Semver) (xs : List (Option Semver)) (mid : Semver) (ys : List (Option Semver))
    (lo : Semver)
    → Falls hi xs mid
    → ((v : Semver) → Precedes mid v → Falls v ys lo)
    → Falls hi (xs ++ ys) lo
Falls-append hi [] mid ys lo h k = k hi h
Falls-append hi (none ∷ xs) mid ys lo h k = Falls-append hi xs mid ys lo h k
Falls-append hi (some v ∷ xs) mid ys lo (p, h) k = (p, Falls-append v xs mid ys lo h k)

pub Falls-blanks : (n : ℕ) (hi lo : Semver) → Precedes lo hi → Falls hi (blanks n) lo
unfolding blanks
Falls-blanks zero hi lo h = h
Falls-blanks (suc n) hi lo h = Falls-blanks n hi lo h

-- Any bound above the ones that follow will do.
Falls-higher :
    (a b : Semver) (xs : List (Option Semver)) (lo : Semver)
    → Precedes a b
    → Falls a xs lo
    → Falls b xs lo
Falls-higher a b [] lo p h = Precedes-trans lo a b h p
Falls-higher a b (none ∷ xs) lo p h = Falls-higher a b xs lo p h
Falls-higher a b (some v ∷ xs) lo p (q, h) = (Precedes-trans v a b q p, h)

pub Falls-ends :
    (hi : Semver) (xs : List (Option Semver)) (lo : Semver) → Falls hi xs lo → Precedes lo hi
Falls-ends hi [] lo h = h
Falls-ends hi (none ∷ xs) lo h = Falls-ends hi xs lo h
Falls-ends hi (some v ∷ xs) lo (p, h) = Precedes-trans lo v hi (Falls-ends v xs lo h) p

-- A later element, and what stands behind it.
pub Falls-drop :
    (hi : Semver) (path : List Semver) (lo : Semver) (i : ℕ)
    → i < length path
    → Falls hi (map some path) lo
    → (v : Semver) × (get_elem? path i ≡ some v)
      × Precedes v hi
      × Falls v (map some (drop (suc i) path)) lo
Falls-drop hi [] lo i h f = absurd (omega arith)
Falls-drop hi (v ∷ path) lo zero h (p, f) = (v, refl, p, f)
Falls-drop hi (v ∷ path) lo (suc i) h (p, f) =
    let later = Falls-drop v path lo i (omega arith) f in
    (later.0, later.1, Precedes-trans later.0 v hi later.2 p, later.3)

-- A descent along numbers that `f` keeps in order.
countdown-Falls :
    (f : ℕ → Semver) (hi lo : Semver) (low n : ℕ)
    → ((j k : ℕ) → j < k → Precedes (f j) (f k))
    → ((k : ℕ) → k < low + n → Precedes (f k) hi)
    → ((k : ℕ) → low ≤ k → Precedes lo (f k))
    → Precedes lo hi
    → Falls hi (map some (map f (countdown low n))) lo
countdown-Falls f hi lo low zero ordered above below h = h
countdown-Falls f hi lo low (suc n) ordered above below h = (
  above (low + n) (omega arith),
  countdown-Falls f (f (low + n)) lo low n ordered (λ k m. ordered k (low + n) m) below
      (below (low + n) (omega arith)),
)

hotfixes-Falls :
    (n : ℕ) (hi om : Semver)
    → ((p : ℕ) → p ≤ om.patch + n → Precedes (version om.major om.minor p) hi)
    → om.patch + n < 2 ^ 63
    → Falls hi (hotfixes om n) om
unfolding hotfixes
hotfixes-Falls zero hi om h fits = h om.patch (omega arith)
hotfixes-Falls (suc n) hi om h fits =
    let here : add64 om.patch (suc n) ≡ om.patch + suc n = omega arith in
    let below : Falls (version om.major om.minor (om.patch + suc n)) (hotfixes om n) om =
      hotfixes-Falls n (version om.major om.minor (om.patch + suc n)) om
        (λ p k. (refl, inr (refl, omega arith))) (omega arith) in
    subst (λ p. Falls hi (some (version om.major om.minor p) ∷ hotfixes om n) om) (sym here)
      (h (om.patch + suc n) (omega arith), below)

Falls-append_all :
    (hi : Semver) (xs : List (Option Semver)) (mid : Semver) (ys : List (Option Semver))
    (lo : Semver)
    → Falls hi xs mid
    → Falls mid ys lo
    → Falls hi (xs ++ ys) lo
Falls-append_all hi xs mid ys lo h k =
    Falls-append hi xs mid ys lo h (λ v p. Falls-higher mid v ys lo p k)

map-some-append : (xs ys : List Semver) → map some (xs ++ ys) ≡ map some xs ++ map some ys
map-some-append [] ys = refl
map-some-append (x ∷ xs) ys = ap (◌∷◌ (some x)) (map-some-append xs ys)

-- The path falls to every number with the older bound's minor version, where the bounds' differ.
descent-Falls_minor :
    (nm om lo : Semver)
    → om.minor < nm.minor
    → lo.major ≡ nm.major
    → lo.minor ≡ om.minor
    → Falls nm (map some (descent nm om)) lo
unfolding descent
descent-Falls_minor nm om lo h e m =
    let other : (nm.minor == om.minor) ≡ false = ground arith in
    let mid : Semver = version nm.major (nm.minor - 1) (suc lo.patch) in
    let top : List Semver = map (version nm.major nm.minor) (countdown 0 nm.patch) in
    let low : List Semver =
      map (λ k. version nm.major k 0) (countdown (om.minor + 1) (nm.minor - 1 - om.minor)) in
    let mid_below : (p : ℕ) → Precedes mid (version nm.major nm.minor p) =
      λ p. (refl, inl (omega arith)) in
    let lo_below : (k : ℕ) → om.minor + 1 ≤ k → Precedes lo (version nm.major k 0) =
      λ k g. (e, inl (omega (arith, m))) in
    rw (other, map-some-append top low)
      (Falls-append_all nm (map some top) mid (map some low) lo
        (countdown-Falls (version nm.major nm.minor) nm mid 0 nm.patch
          (λ j k g. (refl, inr (refl, g))) (λ k g. (refl, inr (refl, omega arith)))
          (λ k g. mid_below k) (refl, inl (omega arith)))
        (countdown-Falls (λ k. version nm.major k 0) mid lo (om.minor + 1) (nm.minor - 1 - om.minor)
          (λ j k g. (refl, inl g))
          (λ k g. Precedes-lex (version nm.major k 0) mid refl (omega arith) (omega arith)) lo_below
          (Precedes-lex lo mid e (omega (arith, m)) (omega arith))))

-- The same for bounds of one minor version.
descent-Falls_patch :
    (nm om : Semver)
    → om.major ≡ nm.major
    → nm.minor ≡ om.minor
    → om.patch < nm.patch
    → Falls nm (map some (descent nm om)) om
unfolding descent
descent-Falls_patch nm om e m h =
    let same : (nm.minor == om.minor) ≡ true = ground arith in
    rw (same) (
      countdown-Falls (version nm.major nm.minor) nm om (om.patch + 1) (nm.patch - 1 - om.patch)
        (λ j k g. (refl, inr (refl, g))) (λ k g. (refl, inr (refl, omega arith)))
        (λ k g. (e, inr (sym m, omega arith))) (e, inr (sym m, h)))

hi_above :
    (om v : Semver) (n p : ℕ)
    → p ≤ om.patch + n
    → Precedes (version om.major om.minor (om.patch + n)) v ⊎ (om.minor < v.minor)
    → om.major ≡ v.major
    → Precedes (version om.major om.minor p) v
hi_above om v n p h (inl (e, inl k)) m = (e, inl k)
hi_above om v n p h (inl (e, inr k)) m = (e, inr (k.0, omega (arith, k.1)))
hi_above om v n p h (inr k) m = (m, inl k)

pub bottom-Falls :
    (nm om hi : Semver) (n : ℕ)
    → om.patch + n < 2 ^ 63
    → Precedes om hi
    → (om.minor < nm.minor
        → Precedes (version om.major om.minor (om.patch + n)) hi ⊎ (om.minor < hi.minor))
    → Falls hi (bottom nm om n) om
unfolding bottom
bottom-Falls nm om hi n fits h above = elim (Bool-cases (ltb om.minor nm.minor)) [
  | inl e ↦ rw e (
      hotfixes-Falls n hi om (λ p k. hi_above om hi n p k (above (ltb→lt om.minor nm.minor e)) h.0)
        fits)
  | inr e ↦ rw e (Falls-blanks n hi om h)
]

pub descent-Falls : (nm om : Semver) → Precedes om nm → Falls nm (map some (descent nm om)) om
descent-Falls nm om (e, inl h) = descent-Falls_minor nm om om h e refl
descent-Falls nm om (e, inr h) = descent-Falls_patch nm om e (sym h.0) h.1

-- More slots than the path has numbers.
pub long_fill-Falls :
    (nm om : Semver) (n : ℕ)
    → Precedes om nm
    → om.patch + n < 2 ^ 63
    → Falls nm (map some (descent nm om) ++ bottom nm om n) om
long_fill-Falls nm om n (e, inl h) fits =
    let mid : Semver = version om.major om.minor (om.patch + n) in
    Falls-append nm (map some (descent nm om)) mid (bottom nm om n) om
      (descent-Falls_minor nm om mid h e refl)
      (λ v p. bottom-Falls nm om v n fits (Precedes_patch v p) (λ k. inl p))
  where
    Precedes_patch :
        (v : Semver) → Precedes (version om.major om.minor (om.patch + n)) v → Precedes om v
    Precedes_patch v (m, inl k) = (m, inl k)
    Precedes_patch v (m, inr k) = (m, inr (k.0, omega (arith, k.1)))
long_fill-Falls nm om n (e, inr h) fits =
    Falls-append nm (map some (descent nm om)) om (bottom nm om n) om
      (descent-Falls_patch nm om e (sym h.0) h.1)
      (λ v p. bottom-Falls nm om v n fits p (λ k. absurd (omega (arith, h.0))))
