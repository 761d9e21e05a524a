-- ===== src/MachO/Commands.antt =====
-- The load commands of a thin Mach-O file, described without the parsers' loops.
use ipadecrypt.Prelude.{ℕ, suc, ◌+◌, ◌≤◌, ◌≡◌, ◌≢◌}
use ipadecrypt.Slice.{Slice, ByteOrder}
use ipadecrypt.Slice.Laws.{word}

-- The command at `p` has its two words inside the file, and its size is plausible.
pub record IsCommand (bo : ByteOrder) (d : Slice) (p : ℕ) : Type 0 where
  pub head_fits : p + 8 ≤ d.len
  pub size_min : 8 ≤ word bo d (p + 4)
  pub size_fits : p + word bo d (p + 4) ≤ d.len

-- Of the `n` commands from `p` on, `q` is the first of the kind `want`; those before are well formed.
pub data FirstAt (bo : ByteOrder) (d : Slice) (want q : ℕ) : ℕ → ℕ → Type 0 where
  here : {n p : ℕ} → p ≡ q → IsCommand bo d q → word bo d q ≡ want → FirstAt bo d want q (suc n) p
  later :
      {n p : ℕ}
      → IsCommand bo d p
      → word bo d p ≢ want
      → FirstAt bo d want q n (p + word bo d (p + 4))
      → FirstAt bo d want q (suc n) p

-- A command that is well formed, and announces no encryption.
pub record IsClear (bo : ByteOrder) (d : Slice) (want p : ℕ) : Type 0 where
  pub command : IsCommand bo d p
  pub roomy : word bo d p ≡ want → 20 ≤ word bo d (p + 4)
  pub plain : word bo d p ≡ want → word bo d (p + 16) ≡ 0

-- The `n` commands from `p` on are all clear.
pub data AllClear (bo : ByteOrder) (d : Slice) (want : ℕ) : ℕ → ℕ → Type 0 where
  none_left : {p : ℕ} → AllClear bo d want 0 p
  clear :
      {n p : ℕ}
      → IsClear bo d want p
      → AllClear bo d want n (p + word bo d (p + 4))
      → AllClear bo d want (suc n) p

-- Of the `n` commands from `p` on, the one at `q` is an encryption command with a cryptid other
-- than 0, and those before it are clear.
pub data EncryptedAt (bo : ByteOrder) (d : Slice) (want q : ℕ) : ℕ → ℕ → Type 0 where
  encrypted :
      {n p : ℕ}
      → p ≡ q
      → IsCommand bo d q
      → word bo d q ≡ want
      → 20 ≤ word bo d (q + 4)
      → word bo d (q + 16) ≢ 0
      → EncryptedAt bo d want q (suc n) p
  behind :
      {n p : ℕ}
      → IsClear bo d want p
      → EncryptedAt bo d want q n (p + word bo d (p + 4))
      → EncryptedAt bo d want q (suc n) p

-- An encryption command that announces encryption, wherever it stands.
pub record EncryptedSomewhere (bo : ByteOrder) (d : Slice) (want n p : ℕ) : Type 0 where
  pub at : ℕ
  pub found : EncryptedAt bo d want at n p
