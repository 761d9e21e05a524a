-- ===== src/Device/Events/RoundTrip.antt =====
-- A line that lists quoted attributes reads back as these attributes.
use ipadecrypt.Device.Events.Tokens.{
  token, write_attrs, write_event, IsAttr, put_all, split_tokens-write_attrs, add_tokens-map,
}
use mathlib.Core.List.{reverse-append, reverse-reverse}
use ipadecrypt.Device.Events.{
  blank_at, blank_before, skip_blanks, trim_left, trim_end, trim_space, split_tokens, add_tokens,
  attr, parse_trimmed, parse_event,
}
use ipadecrypt.Prelude.Text.Laws.{has_prefix_iff}
use ipadecrypt.Prelude.Text.{codes, has_prefix}
use ipadecrypt.Prelude.{
  ℕ, zero, suc, ◌≡◌, refl, ap, ◌∙◌, sym, arith, true, some, List, [], ◌∷◌, ◌++◌, reverse,
  append_assoc, length, All, Bytes,
}

write_attrs_ends :
    (a : Bytes × Bytes) (as' : List (Bytes × Bytes))
    → (t : Bytes) × (write_attrs (a ∷ as') ≡ t ++ b'"' ∷ [])
unfolding write_attrs token
write_attrs_ends (k, v) [] =
    (k ++ b'=' ∷ b'"' ∷ v, sym (append_assoc k (b'=' ∷ b'"' ∷ v) (b'"' ∷ [])))
write_attrs_ends (k, v) (b ∷ more) =
    let later = write_attrs_ends b more in
    (
      token (k, v) ++ b' ' ∷ later.0,
      ap (λ t. token (k, v) ++ b' ' ∷ t) later.1
          ∙ sym (append_assoc (token (k, v)) (b' ' ∷ later.0) (b'"' ∷ [])),
    )

no_blank_before : (s : Bytes) → blank_before (b'"' ∷ s) ≡ 0
unfolding blank_before
no_blank_before [] = refl
no_blank_before (a ∷ []) = ground arith
no_blank_before (a ∷ b ∷ s) = ground arith

skip_blanks_quote : (n : ℕ) (s : Bytes) → skip_blanks blank_before n (b'"' ∷ s) ≡ b'"' ∷ s
unfolding skip_blanks
skip_blanks_quote zero s = refl
skip_blanks_quote (suc n) s = ground (arith, no_blank_before s)

trim_end_quote : (t : Bytes) → trim_end (t ++ b'"' ∷ []) ≡ t ++ b'"' ∷ []
unfolding trim_end
trim_end_quote t =
    let back : reverse (t ++ b'"' ∷ []) ≡ b'"' ∷ reverse t = reverse-append t (b'"' ∷ []) in
    ap (λ s. reverse (skip_blanks blank_before (length (t ++ b'"' ∷ [])) s)) back
    ∙ ap reverse (skip_blanks_quote (length (t ++ b'"' ∷ [])) (reverse t))
    ∙ ap reverse (sym back)
    ∙ reverse-reverse (t ++ b'"' ∷ [])

trim_left_event : (s : Bytes) → trim_left (codes "@evt " ++ s) ≡ codes "@evt " ++ s
unfolding trim_left skip_blanks blank_at
trim_left_event s = refl

trim_space-write_event :
    (a : Bytes × Bytes) (as' : List (Bytes × Bytes))
    → trim_space (write_event (a ∷ as')) ≡ write_event (a ∷ as')
unfolding trim_space write_event
trim_space-write_event a as' =
    let last = write_attrs_ends a as' in
    let line : codes "@evt " ++ write_attrs (a ∷ as') ≡ (codes "@evt " ++ last.0) ++ b'"' ∷ [] =
      ap (λ t. codes "@evt " ++ t) last.1 in
    ap trim_end (trim_left_event (write_attrs (a ∷ as')))
    ∙ ap trim_end line
    ∙ trim_end_quote (codes "@evt " ++ last.0)
    ∙ sym line

parse_trimmed-append :
    (s : Bytes)
    → parse_trimmed (codes "@evt " ++ s)
      ≡ some (record {
        name = attr (add_tokens (split_tokens s) []) (codes "event");
        attrs = add_tokens (split_tokens s) [];
      })
unfolding parse_trimmed
parse_trimmed-append s =
    let begins : has_prefix (codes "@evt " ++ s) (codes "@evt ") ≡ true =
      (has_prefix_iff (codes "@evt " ++ s) (codes "@evt ")).1 (s, refl) in
    ground (arith, begins)

-- A line of "@evt " and attributes with quoted values, at least one, reads back as these
-- attributes, of equal keys the last one, and its name is the attribute "event", where no key is
-- empty or has a quote, a blank or an '=', and no value has a quote.
pub parse_event-write_event :
    (a : Bytes × Bytes) (as' : List (Bytes × Bytes))
    → IsAttr a
    → All IsAttr as'
    → parse_event (write_event (a ∷ as'))
      ≡ some (record {
        name = attr (put_all (a ∷ as') []) (codes "event");
        attrs = put_all (a ∷ as') [];
      })
unfolding parse_event write_event
parse_event-write_event a as' h hs =
    let read : add_tokens (split_tokens (write_attrs (a ∷ as'))) [] ≡ put_all (a ∷ as') [] =
      ap (λ ts. add_tokens ts []) (split_tokens-write_attrs (a ∷ as') (h, hs))
      ∙ add_tokens-map (a ∷ as') [] (h, hs) in
    ap parse_trimmed (trim_space-write_event a as')
    ∙ parse_trimmed-append (write_attrs (a ∷ as'))
    ∙ ap (λ m. some (record { name = attr m (codes "event"); attrs = m })) read
