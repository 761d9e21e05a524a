-- ===== src/Pipeline/Assemble/Exact.antt =====
-- The output of `Assemble`, entry by entry.
use ipadecrypt.Outcome.{ok, Outcome-cases, >>=-eq-ok}
use ipadecrypt.Pipeline.Archive.{IoError, Content, readable, Entry, archive, read_all}
use ipadecrypt.Pipeline.Assemble.{
  Substitute, OutEntry, created, raw, Faults, Writer, has_name, write, fill, copy_rest,
  close_writer, assemble,
}
use ipadecrypt.Pipeline.Paths.{is_excluded_ipa_entry}
use ipadecrypt.Prelude.{
  All-append, ◌≡◌, false, ◌||◌, arith, Option, none, List, [], ◌∷◌, ◌++◌, if◌then◌else◌, Bytes, All,
  Bool-cases, Option-cases, inl, inr, append-nil, append_assoc,
}

-- The bytes of a substitute; none where reading it fails.
abbrev pub bytes_of : Content → Bytes
bytes_of (readable bs) = bs
bytes_of _ = []

-- The entries that the substitutes give, in order: those that are not excluded.
unfoldable pub substituted : List Substitute → List OutEntry
substituted [] = []
substituted (s ∷ subs) =
    if is_excluded_ipa_entry s.name
    then substituted subs
    else created s.name (bytes_of s.content) ∷ substituted subs

-- The names of the substitutes that are not excluded, the last in front.
unfoldable pub substituted_names : List Bytes → List Substitute → List Bytes
substituted_names names [] = names
substituted_names names (s ∷ subs) =
    substituted_names (if is_excluded_ipa_entry s.name then names else s.name ∷ names) subs

-- The source's entries that are neither substituted nor excluded, in order.
unfoldable pub forwarded : List Bytes → List Entry → List OutEntry
forwarded names [] = []
forwarded names (f ∷ fs) =
    if has_name names f.name || is_excluded_ipa_entry f.name
    then forwarded names fs
    else raw f ∷ forwarded names fs

write_exact :
    (faults : Faults) (w v : Writer) (s : Substitute)
    → write faults w s ≡ ok v
    → (v.out
        ≡ w.out
          ++ (if is_excluded_ipa_entry s.name
              then []
              else created s.name (bytes_of s.content) ∷ []))
      × (v.written ≡ (if is_excluded_ipa_entry s.name then w.written else s.name ∷ w.written))
unfolding write read_all
write_exact faults w v s e = elim (Bool-cases (is_excluded_ipa_entry s.name)) [
  | inl excluded ↦ rw (excluded, append-nil) (ground (arith, excluded))
  | inr written ↦ rw written (ground (arith, written))
]

fill_exact :
    (faults : Faults) (w : Writer) (subs : List Substitute) (w' : Writer)
    → fill faults w subs ≡ ok w'
    → (w'.out ≡ w.out ++ substituted subs) × (w'.written ≡ substituted_names w.written subs)
unfolding fill substituted substituted_names
fill_exact faults w [] w' e = rw append-nil (ground arith)
fill_exact faults w (s ∷ subs) w' e =
    let (v, first, rest) = >>=-eq-ok (write faults w s) (λ v. fill faults v subs) e in
    let h = fill_exact faults v subs w' rest in
    let one = write_exact faults w v s first in
    elim (Bool-cases (is_excluded_ipa_entry s.name)) [
      | inl excluded ↦ rw excluded (ground (arith, h, one, append-nil w.out, excluded))
      | inr written ↦ rw written (
          ground (
            arith,
            h,
            one,
            written,
            append_assoc w.out (created s.name (bytes_of s.content) ∷ []) (substituted subs),
          ))
    ]

copy_rest_exact :
    (faults : Faults) (written : List Bytes) (out : List OutEntry) (fs : List Entry)
    (out' : List OutEntry)
    → copy_rest faults written out fs ≡ ok out'
    → out' ≡ out ++ forwarded written fs
unfolding copy_rest forwarded
copy_rest_exact faults written out [] out' e = rw append-nil (ground arith)
copy_rest_exact faults written out (f ∷ fs) out' e = ground (
  arith,
  copy_rest_exact faults written out fs out',
  copy_rest_exact faults written (out ++ raw f ∷ []) fs out',
  append_assoc out (raw f ∷ []) (forwarded written fs),
)

-- When `Assemble` succeeds, its output is the substitutes that are not excluded, in the order of
-- the writes, and behind them the source's entries that are neither excluded nor substituted,
-- verbatim and in the source's order; and the callback reported no error.
pub assemble_exact :
    (faults : Faults) (src : List Entry) (subs : List Substitute) (returned : Option IoError)
    (out : List OutEntry)
    → assemble faults (archive src) subs returned ≡ ok out
    → (returned ≡ none) × (out ≡ substituted subs ++ forwarded (substituted_names [] subs) src)
unfolding assemble close_writer
assemble_exact faults src subs returned out e =
    let (w, filled, rest) = >>=-eq-ok (fill faults (record { out = []; written = [] }) subs) _ e in
    let h = fill_exact faults (record { out = []; written = [] }) subs w filled in
    elim (Option-cases returned) [
      | inr (x, r) ↦ absurd (ground (arith, rest, r))
      | inl fine ↦ (
        fine,
        elim (Outcome-cases (copy_rest faults w.written w.out src)) [
          | inl (o, c) ↦
              let k = copy_rest_exact faults w.written w.out src o c in
              ground (arith, rest, fine, c, h, k)
          | inr (inl (x, c)) ↦ absurd (ground (arith, rest, fine, c))
          | inr (inr c) ↦ absurd (ground (arith, rest, fine, c))
        ],
      )
    ]

abbrev pub out_name : OutEntry → Bytes
out_name (created name bs) = name
out_name (raw f) = f.name

-- No entry of the list has an excluded name.
abbrev pub NoneExcluded : List OutEntry → Type 0
NoneExcluded = All (λ o. is_excluded_ipa_entry (out_name o) ≡ false)

substituted-NoneExcluded : (subs : List Substitute) → NoneExcluded (substituted subs)
unfolding substituted
substituted-NoneExcluded [] = tt
substituted-NoneExcluded (s ∷ subs) = ground (arith, substituted-NoneExcluded subs)

forwarded-NoneExcluded : (names : List Bytes) (fs : List Entry) → NoneExcluded (forwarded names fs)
unfolding forwarded
forwarded-NoneExcluded names [] = tt
forwarded-NoneExcluded names (f ∷ fs) = ground (arith, forwarded-NoneExcluded names fs)

-- No entry of an assembled archive has an excluded name, whatever the callback wrote.
pub assemble-NoneExcluded :
    (faults : Faults) (src : List Entry) (subs : List Substitute) (returned : Option IoError)
    (out : List OutEntry)
    → assemble faults (archive src) subs returned ≡ ok out
    → NoneExcluded out
assemble-NoneExcluded faults src subs returned out e =
    rw ((assemble_exact faults src subs returned out e).1) (
      All-append _ (substituted subs) _ (substituted-NoneExcluded subs)
        (forwarded-NoneExcluded (substituted_names [] subs) src))
