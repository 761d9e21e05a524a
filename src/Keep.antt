-- ===== src/Keep.antt =====
-- cmd/ipadecrypt/keep.go: `keepOptions`, whose answers index into its second list.
use ipadecrypt.Config.Files.{IsPolicy}
use ipadecrypt.Config.{keep_both, keep_desktop, keep_device}
use ipadecrypt.Prelude.Text.{codes, equal}
use ipadecrypt.Prelude.{◌≡◌, refl, inl, inr, List, [], ◌∷◌, ◌++◌, map, if◌then◌else◌, Bytes}

-- `all`: labels and values.
abbrev all_options : List (Bytes × Bytes)
all_options =
    (codes "Both", keep_both)
    ∷ (codes "Desktop only", keep_desktop)
    ∷ (codes "Device only", keep_device)
    ∷ []

-- The first loop.
unfoldable current_option : Bytes → List (Bytes × Bytes) → List (Bytes × Bytes)
current_option current [] = []
current_option current (opt ∷ opts) =
    if equal opt.1 current then opt ∷ [] else current_option current opts

-- The second loop.
unfoldable other_options : Bytes → List (Bytes × Bytes) → List (Bytes × Bytes)
other_options current [] = []
other_options current (opt ∷ opts) =
    if equal opt.1 current then other_options current opts else opt ∷ other_options current opts

unfoldable keep_options : Bytes → List Bytes × List Bytes
keep_options current =
    let opts = current_option current all_options ++ other_options current all_options in
    (map (λ o. o.0) opts, map (λ o. o.1) opts)

-- The current policy is offered first, and two others are.
keep_options_lem :
    (current : Bytes)
    → IsPolicy current
    → (a : Bytes) × (b : Bytes) × ((keep_options current).1 ≡ current ∷ a ∷ b ∷ [])
unfolding keep_options current_option other_options equal
keep_options_lem current (inl both) = (keep_desktop, keep_device, rw both refl)
keep_options_lem current (inr (inl desktop)) = (keep_both, keep_device, rw desktop refl)
keep_options_lem current (inr (inr device)) = (keep_both, keep_desktop, rw device refl)
