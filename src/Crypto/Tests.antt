-- ===== src/Crypto/Tests.antt =====
-- The cipher on the key of two bytes 1 and 2.
use unics.Base.{ℕ, ◌+◌, ◌≡◌, some, arith}
use unics.Crypto.Arc4.{Ctx, keysetup, skip}
use unics.Crypto.Permutes.{IsValid, skip-keysetup-IsValid}

abbrev key : ℕ → ℕ
key i = i + 1

skip-keysetup-IsValid_example : (c : Ctx) × (keysetup key 2 ≡ some c) × IsValid (skip c 3)
skip-keysetup-IsValid_example = skip-keysetup-IsValid key 2 3 (omega arith)
