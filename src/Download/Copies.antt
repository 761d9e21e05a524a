-- ===== src/Download/Copies.antt =====
-- Bytes that are copied over the first part of a file, or behind it.
use ipadecrypt.Download.{Fetched, existing, write_at, copy_body}
use ipadecrypt.Pipeline.Archive.{IoError}
use ipadecrypt.Prelude.Text.Laws.{take-append-drop, drop_append}
use ipadecrypt.Prelude.{
  ℕ, zero, suc, ◌+◌, ◌≤◌, ◌≡◌, refl, ap, ◌∙◌, sym, subst, arith, Option, none, some, [], ◌∷◌, ◌++◌,
  append-nil, append_assoc, length, length-append, take, drop, Bytes,
}

abbrev pub IsPrefix : Bytes → Bytes → Type 0
IsPrefix f data_bytes = (r : Bytes) × (data_bytes ≡ f ++ r)

-- The file is a part of the server's, and all of it where there is no error.
abbrev pub Resumes : Bytes → Fetched → Type 0
Resumes data_bytes r =
    IsPrefix (existing r.file) data_bytes × (r.error ≡ none → r.file ≡ some data_bytes)

take-IsPrefix : (n : ℕ) (s : Bytes) → IsPrefix (take n s) s
take-IsPrefix n s = (drop n s, sym (take-append-drop n s))

take-length : (s : Bytes) → take (length s) s ≡ s
take-length [] = refl
take-length (c ∷ s) = ap (◌∷◌ c) (take-length s)

drop_beyond : (s : Bytes) (n : ℕ) → length s ≤ n → drop n s ≡ []
drop_beyond [] zero h = refl
drop_beyond [] (suc n) h = refl
drop_beyond (c ∷ s) zero h = absurd (omega arith)
drop_beyond (c ∷ s) (suc n) h = drop_beyond s n (omega arith)

-- Bytes written at the end.
write_at-end : (file bs : Bytes) → write_at (length file) bs file ≡ file ++ bs
unfolding write_at
write_at-end file bs =
    let behind : drop (length file + length bs) file ≡ [] =
      drop_beyond file (length file + length bs) (omega arith) in
    rw (take-length file, behind, append-nil bs) refl

-- The first bytes of the server's file written over a part of it.
overlay :
    (n : ℕ) (f r : Bytes) → IsPrefix (take n (f ++ r) ++ drop (length (take n (f ++ r))) f) (f ++ r)
overlay zero f r = (r, refl)
overlay (suc n) [] r =
    let gone : drop (length (take (suc n) r)) [] ≡ [] =
      drop_beyond [] (length (take (suc n) r)) (omega arith) in
    (
      drop (suc n) r,
      sym (take-append-drop (suc n) r)
          ∙ ap (λ s. s ++ drop (suc n) r)
              (sym (append-nil (take (suc n) r)) ∙ ap (λ s. take (suc n) r ++ s) (sym gone)),
    )
overlay (suc n) (c ∷ f) r = let h = overlay n f r in (h.0, ap (◌∷◌ c) h.1)

write_at-start : (bs f : Bytes) → write_at 0 bs f ≡ bs ++ drop (length bs) f
unfolding write_at
write_at-start bs f = ap (λ n. bs ++ drop n f) (omega arith)

-- The copy from the file's start on, whatever part of it is there.
pub copy_start :
    (cut : Option (ℕ × IoError)) (f data_bytes : Bytes)
    → IsPrefix f data_bytes
    → Resumes data_bytes (copy_body cut f 0 data_bytes)
unfolding copy_body
copy_start none f data_bytes (r, e) =
    let all : write_at 0 data_bytes f ≡ data_bytes =
      write_at-start data_bytes f
      ∙ ap (λ s. data_bytes ++ s)
          (drop_beyond f (length data_bytes) (omega (arith, ap length e, length-append f r)))
      ∙ append-nil data_bytes in
    (([], sym all ∙ sym (append-nil (write_at 0 data_bytes f))), λ h. ap some all)
copy_start (some (n, e)) f data_bytes (r, h) = (
  subst (λ d. IsPrefix (write_at 0 (take n d) f) d) (sym h)
      (subst (λ s. IsPrefix s (f ++ r)) (sym (write_at-start (take n (f ++ r)) f)) (overlay n f r)),
  λ k. cc,
)

-- The copy of the rest behind the file.
pub copy_rest :
    (cut : Option (ℕ × IoError)) (f data_bytes : Bytes)
    → IsPrefix f data_bytes
    → Resumes data_bytes (copy_body cut f (length f) (drop (length f) data_bytes))
unfolding copy_body
copy_rest none f data_bytes (r, e) =
    let all : write_at (length f) (drop (length f) data_bytes) f ≡ data_bytes =
      write_at-end f (drop (length f) data_bytes)
      ∙ ap (λ s. f ++ s) (ap (drop (length f)) e ∙ drop_append f r)
      ∙ sym e in
    (
      ([], sym all ∙ sym (append-nil (write_at (length f) (drop (length f) data_bytes) f))),
      λ h. ap some all,
    )
copy_rest (some (n, x)) f data_bytes (r, e) =
    let rest : drop (length f) data_bytes ≡ r = ap (drop (length f)) e ∙ drop_append f r in
    let now : write_at (length f) (take n (drop (length f) data_bytes)) f ≡ f ++ take n r =
      write_at-end f (take n (drop (length f) data_bytes)) ∙ ap (λ s. f ++ take n s) rest in
    (
      (
        drop n r,
        e
            ∙ ap (λ s. f ++ s) (sym (take-append-drop n r))
            ∙ sym (append_assoc f (take n r) (drop n r))
            ∙ ap (λ s. s ++ drop n r) (sym now),
      ),
      λ k. cc,
    )
