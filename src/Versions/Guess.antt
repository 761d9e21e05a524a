-- ===== src/Versions/Guess.antt =====
-- cmd/ipadecrypt/versions_tui.go: `monotonicVersionFill`. A guess is a version number before it is
-- printed, and `none` is the blank text.
pub mod Falls
pub mod Sampled
use ipadecrypt.Prelude.Text.{equal}
use ipadecrypt.Prelude.{
  ℕ, zero, suc, ◌+◌, ◌-◌, ◌*◌, ◌/◌, Bool, true, false, not, ◌&&◌, ◌||◌, Option, none, some, List,
  [], ◌∷◌, ◌++◌, map, ltb, leb, ◌==◌, if◌then◌else◌, add64, length, get_elem?, replicate, Bytes,
}
use ipadecrypt.Versions.Semver.{Semver, parse_semver3, show_semver}

abbrev pub version : ℕ → ℕ → ℕ → Semver
version major minor patch = record { major = major; minor = minor; patch = patch }

-- The numbers from `low + n - 1` down to `low`.
abbrev pub countdown : ℕ → ℕ → List ℕ
countdown low zero = []
countdown low (suc n) = (low + n) ∷ countdown low n

-- `path`: the numbers strictly between two bounds, highest first.
unfoldable pub descent : Semver → Semver → List Semver
descent nm om =
    if nm.minor == om.minor
    then map (version nm.major nm.minor) (countdown (om.patch + 1) (nm.patch - 1 - om.patch))
    else map (version nm.major nm.minor) (countdown 0 nm.patch)
      ++ map (λ m. version nm.major m 0) (countdown (om.minor + 1) (nm.minor - 1 - om.minor))

-- Hotfixes of the older bound, `n` of them, highest first. The sum is that of ints.
unfoldable pub hotfixes : Semver → ℕ → List (Option Semver)
hotfixes om zero = []
hotfixes om (suc n) = some (version om.major om.minor (add64 om.patch (suc n))) ∷ hotfixes om n

-- The index of slot `i` before it is clamped.
abbrev pub sample_index : ℕ → ℕ → ℕ → ℕ
sample_index n slots i = n * (2 * i + 1) / (2 * slots)

-- The two clamps; `next` is `lastIdx + 1`.
unfoldable pub clamp_index : ℕ → ℕ → ℕ → ℕ
clamp_index n next i =
    let raised = if ltb i next then next else i in if leb n raised then n - 1 else raised

-- The slots from `i` on, `left` of them.
unfoldable pub sample : List Semver → ℕ → ℕ → ℕ → ℕ → List (Option Semver)
sample path slots zero i next = []
sample path slots (suc left) i next =
    let idx = clamp_index (length path) next (sample_index (length path) slots i) in
    get_elem? path idx ∷ sample path slots left (i + 1) (idx + 1)

unfoldable pub blanks : ℕ → List (Option Semver)
blanks n = replicate n none

-- The bottom slots, behind the path.
unfoldable pub bottom : Semver → Semver → ℕ → List (Option Semver)
bottom nm om n = if ltb om.minor nm.minor then hotfixes om n else blanks n

-- The `switch` on the path's length.
unfoldable pub fill_path : Semver → Semver → List Semver → ℕ → List (Option Semver)
fill_path nm om path slots =
    if length path == 0
    then bottom nm om slots
    else if leb slots (length path)
    then sample path slots slots 0 0
    else map some path ++ bottom nm om (slots - length path)

-- From the test of the major numbers on.
unfoldable pub fill_between : Semver → Semver → ℕ → List (Option Semver)
fill_between nm om slots =
    if not (nm.major == om.major)
    then blanks slots
    else if ltb nm.minor om.minor || (nm.minor == om.minor && leb nm.patch om.patch)
    then blanks slots
    else fill_path nm om (descent nm om) slots

unfoldable pub show_guess : Option Semver → Bytes
show_guess none = []
show_guess (some v) = show_semver v

unfoldable pub monotonic_version_fill : Bytes → Bytes → ℕ → List Bytes
monotonic_version_fill newer older slots = elim (parse_semver3 newer) [
  | none ↦ replicate slots []
  | some nm ↦ elim (parse_semver3 older) [
    | none ↦ replicate slots []
    | some om ↦
        if equal newer older
        then replicate slots newer
        else map show_guess (fill_between nm om slots)
  ]
]
