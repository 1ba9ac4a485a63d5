-- ===== src/Str/Token.antt =====
-- lib/libc/string.c: `strtok` with its static variable.
use unics.Base.{ℕ, ◌+◌, Option, none, some, ◌==◌, if◌then◌else◌}
use unics.Base.Table.{update}
use unics.Str.Memory.{Memory}
use unics.Str.Scan.{strspn, strcspn}

-- The memory and the static variable `last_token`.
pub record Tokens : Type 0 where
  pub memory : Memory
  pub last_token : Option ℕ

-- `strtok` from the place where the token starts; `length` is the length of the token.
unfoldable pub cut_token : ℕ → ℕ → Tokens → Option ℕ × Tokens
cut_token start length t =
    if t.memory (start + length) == 0 then (some start, record t { last_token = none }) else (
      some start,
      record {
        memory = update t.memory (start + length) 0;
        last_token = some (start + length + 1);
      },
    )

-- `strtok` behind the leading delimiters. The result is `none` without enough fuel.
unfoldable pub token_at : ℕ → ℕ → ℕ → Tokens → Option (Option ℕ × Tokens)
token_at fuel start delim t =
    if t.memory start == 0
    then some (none, record t { last_token = none })
    else elim (strcspn fuel t.memory start delim) [
      | none ↦ none
      | some n ↦ some (cut_token start n t)
    ]

-- `strtok` when `last_token` is set as the call wants it.
unfoldable pub next_token : ℕ → ℕ → Tokens → Option (Option ℕ × Tokens)
next_token fuel delim t = elim t.last_token [
  | none ↦ some (none, t)
  | some p ↦ if t.memory p == 0 then some (none, t) else elim (strspn fuel t.memory p delim) [
    | none ↦ none
    | some n ↦ token_at fuel (p + n) delim t
  ]
]

-- `strtok`
unfoldable pub strtok : ℕ → Option ℕ → ℕ → Tokens → Option (Option ℕ × Tokens)
strtok fuel none delim t = next_token fuel delim t
strtok fuel (some str) delim t = next_token fuel delim (record t { last_token = some str })
