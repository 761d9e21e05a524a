-- ===== src/Device/Events/Tokens.antt =====
-- The tokens of quoted attributes read back as these attributes.
use ipadecrypt.Device.Events.{
  whole_token, next_byte, tokens_from, split_tokens, cut_equals, unquote, add_pair, add_tokens,
}
use ipadecrypt.Prelude.Text.Laws.{Free, has_suffix_iff, take_append}
use ipadecrypt.Prelude.Text.{codes, has_suffix}
use ipadecrypt.Prelude.{
  ◌-◌, ◌≡◌, ◌≢◌, refl, ap, ◌∙◌, sym, arith, true, false, some, List, [], ◌∷◌, ◌++◌, map, append-nil,
  append_assoc, length, length-append, All, Bytes,
}
use ipadecrypt.Versions.Screen.{put_entry}

-- An attribute as it is written: the value stands in quotes.
unfoldable pub token : Bytes × Bytes → Bytes
token (k, v) = k ++ b'=' ∷ b'"' ∷ (v ++ b'"' ∷ [])

unfoldable pub write_attrs : List (Bytes × Bytes) → Bytes
write_attrs [] = []
write_attrs (a ∷ []) = token a
write_attrs (a ∷ b ∷ more) = token a ++ b' ' ∷ write_attrs (b ∷ more)

unfoldable pub write_event : List (Bytes × Bytes) → Bytes
write_event as' = codes "@evt " ++ write_attrs as'

-- A key has no quote, blank or '=', and a value no quote.
abbrev pub IsKey : Bytes → Type 0
IsKey k = (k ≢ []) × Free b'"' k × Free b' ' k × Free b'=' k

abbrev pub IsAttr : Bytes × Bytes → Type 0
IsAttr a = IsKey a.0 × Free b'"' a.1

tokens_plain :
    (cur w s : Bytes)
    → Free b'"' w
    → Free b' ' w
    → tokens_from false cur (w ++ s) ≡ tokens_from false (cur ++ w) s
unfolding tokens_from next_byte
tokens_plain cur [] s h k = ap (λ a. tokens_from false a s) (sym (append-nil cur))
tokens_plain cur (c ∷ w) s (h, hs) (k, ks) =
    let next : tokens_from false cur (c ∷ (w ++ s)) ≡ tokens_from false (cur ++ c ∷ []) (w ++ s) =
      ground (arith, h, k) in
    next
    ∙ tokens_plain (cur ++ c ∷ []) w s hs ks
    ∙ ap (λ a. tokens_from false a s) (append_assoc cur (c ∷ []) w)

tokens_quoted :
    (cur v s : Bytes) → Free b'"' v → tokens_from true cur (v ++ s) ≡ tokens_from true (cur ++ v) s
unfolding tokens_from next_byte
tokens_quoted cur [] s h = ap (λ a. tokens_from true a s) (sym (append-nil cur))
tokens_quoted cur (c ∷ v) s (h, hs) =
    let next : tokens_from true cur (c ∷ (v ++ s)) ≡ tokens_from true (cur ++ c ∷ []) (v ++ s) =
      ground (arith, h) in
    next
    ∙ tokens_quoted (cur ++ c ∷ []) v s hs
    ∙ ap (λ a. tokens_from true a s) (append_assoc cur (c ∷ []) v)

-- The pieces of a token put together one after the other.
token_pieces : (k v : Bytes) → (((k ++ b'=' ∷ []) ++ b'"' ∷ []) ++ v) ++ b'"' ∷ [] ≡ token (k, v)
unfolding token
token_pieces k v =
    append_assoc ((k ++ b'=' ∷ []) ++ b'"' ∷ []) v (b'"' ∷ [])
    ∙ append_assoc (k ++ b'=' ∷ []) (b'"' ∷ []) (v ++ b'"' ∷ [])
    ∙ append_assoc k (b'=' ∷ []) (b'"' ∷ (v ++ b'"' ∷ []))

token-append : (k v s : Bytes) → token (k, v) ++ s ≡ k ++ b'=' ∷ b'"' ∷ (v ++ b'"' ∷ s)
unfolding token
token-append k v s =
    append_assoc k (b'=' ∷ b'"' ∷ (v ++ b'"' ∷ [])) s
    ∙ ap (λ t. k ++ b'=' ∷ b'"' ∷ t) (append_assoc v (b'"' ∷ []) s)

opens :
    (k t : Bytes)
    → tokens_from false k (b'=' ∷ b'"' ∷ t) ≡ tokens_from true ((k ++ b'=' ∷ []) ++ b'"' ∷ []) t
unfolding tokens_from next_byte
opens k t = refl

closes : (cur s : Bytes) → tokens_from true cur (b'"' ∷ s) ≡ tokens_from false (cur ++ b'"' ∷ []) s
unfolding tokens_from next_byte
closes cur s = refl

tokens_token :
    (a : Bytes × Bytes) (s : Bytes)
    → IsAttr a
    → tokens_from false [] (token a ++ s) ≡ tokens_from false (token a) s
tokens_token (k, v) s ((some_key, no_quote, no_blank, no_equals), plain) =
    let cur : Bytes = (k ++ b'=' ∷ []) ++ b'"' ∷ [] in
    ap (tokens_from false []) (token-append k v s)
    ∙ tokens_plain [] k (b'=' ∷ b'"' ∷ (v ++ b'"' ∷ s)) no_quote no_blank
    ∙ opens k (v ++ b'"' ∷ s)
    ∙ tokens_quoted cur v (b'"' ∷ s) plain
    ∙ closes (cur ++ v) s
    ∙ ap (λ t. tokens_from false t s) (token_pieces k v)

whole_token_lem : (s : Bytes) → s ≢ [] → whole_token s ≡ s ∷ []
whole_token_lem [] h = absurd (h refl)
whole_token_lem (c ∷ s) h = refl

token-ne-nil : (a : Bytes × Bytes) → IsAttr a → token a ≢ []
unfolding token
token-ne-nil ([], v) ((some_key, _, _, _), _) e = absurd (some_key refl)
token-ne-nil (c ∷ k, v) h e = cc

ends_token : (cur : Bytes) → tokens_from false cur [] ≡ whole_token cur
unfolding tokens_from
ends_token cur = refl

next_token :
    (cur s : Bytes) → tokens_from false cur (b' ' ∷ s) ≡ whole_token cur ++ tokens_from false [] s
unfolding tokens_from next_byte
next_token cur s = refl

pub split_tokens-write_attrs :
    (as' : List (Bytes × Bytes)) → All IsAttr as' → split_tokens (write_attrs as') ≡ map token as'
unfolding split_tokens write_attrs
split_tokens-write_attrs [] h = ends_token []
split_tokens-write_attrs (a ∷ []) (h, _) =
    ap (tokens_from false []) (sym (append-nil (token a)))
    ∙ tokens_token a [] h
    ∙ ends_token (token a)
    ∙ whole_token_lem (token a) (token-ne-nil a h)
split_tokens-write_attrs (a ∷ b ∷ more) (h, hs) =
    tokens_token a (b' ' ∷ write_attrs (b ∷ more)) h
    ∙ next_token (token a) (write_attrs (b ∷ more))
    ∙ ap (λ ts. ts ++ split_tokens (write_attrs (b ∷ more)))
        (whole_token_lem (token a) (token-ne-nil a h))
    ∙ ap (◌∷◌ (token a)) (split_tokens-write_attrs (b ∷ more) hs)

cut_equals-append : (k v : Bytes) → Free b'=' k → cut_equals (k ++ b'=' ∷ v) ≡ some (k, v)
unfolding cut_equals
cut_equals-append [] v h = refl
cut_equals-append (c ∷ k) v (h, hs) = rw (h, cut_equals-append k v hs) refl

unquote_quoted : (v : Bytes) → unquote (b'"' ∷ (v ++ b'"' ∷ [])) ≡ v
unfolding unquote
unquote_quoted v =
    let ends : has_suffix (v ++ b'"' ∷ []) (b'"' ∷ []) ≡ true =
      (has_suffix_iff (v ++ b'"' ∷ []) (b'"' ∷ [])).1 (v, refl) in
    let size : length (v ++ b'"' ∷ []) - 1 ≡ length v =
      omega (arith, length-append v (b'"' ∷ [])) in
    rw (ends, size) (take_append v (b'"' ∷ []))

-- The attributes put into a map one after the other: of equal keys the last one counts.
abbrev pub put_all : List (Bytes × Bytes) → List (Bytes × Bytes) → List (Bytes × Bytes)
put_all [] m = m
put_all ((k, v) ∷ as') m = put_all as' (put_entry k v m)

add_pair-token :
    (k v : Bytes) (m : List (Bytes × Bytes))
    → IsAttr (k, v)
    → add_pair (cut_equals (token (k, v))) m ≡ put_entry k v m
unfolding token add_pair
add_pair-token [] v m ((some_key, _, _, _), _) = absurd (some_key refl)
add_pair-token (c ∷ k) v m ((_, _, _, no_equals), plain) =
    ap (λ p. add_pair p m) (cut_equals-append (c ∷ k) (b'"' ∷ (v ++ b'"' ∷ [])) no_equals)
    ∙ ap (λ w. put_entry (c ∷ k) w m) (unquote_quoted v)

pub add_tokens-map :
    (as' m : List (Bytes × Bytes)) → All IsAttr as' → add_tokens (map token as') m ≡ put_all as' m
unfolding add_tokens
add_tokens-map [] m h = refl
add_tokens-map ((k, v) ∷ as') m (h, hs) =
    ap (add_tokens (map token as')) (add_pair-token k v m h)
    ∙ add_tokens-map as' (put_entry k v m) hs
