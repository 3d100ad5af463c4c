-- ===== src/ChainClient/Leaks.antt =====
-- providers/bittensor_client.py: no connection is lost without being closed.
use abstract_block_dumper.Prelude.{
  ℕ, suc, ◌+◌, ◌≡◌, Option, none, some, List, ◌∷◌, [], ◌==◌, if◌then◌else◌,
}
use abstract_block_dumper.ChainClient.{Client, Connected}

-- How often a connection stands in a list, and in a field.
unfoldable pub occurrences : ℕ → List ℕ → ℕ
occurrences j [] = 0
occurrences j (n ∷ rest) = let later = occurrences j rest in if n == j then suc later else later

abbrev in_field : ℕ → Option ℕ → ℕ
in_field j none = 0
in_field j (some n) = if n == j then 1 else 0

abbrev held : ℕ → Client → ℕ
held j c = in_field j c.subtensor + in_field j c.archive_subtensor + in_field j c.rpc_substrate

-- Each connection that was opened is held or was closed.
abbrev IsBalanced : ℕ → Connected → Type 0
IsBalanced j (c, l) = occurrences j l.opened ≡ held j c + occurrences j l.closed
