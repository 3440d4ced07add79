-- ===== src/Diff.antt =====
-- The line diff of the Kimi proxy: packages/proxies/kimi-proxy/src/core/diff.ts (the Grok proxy has
-- the same functions in its own core/diff.ts). This file has the data and the splitting of a text.
pub mod Lcs
pub mod Hunks
pub mod Render
mod Examples
use Prim.Native.Char.{Char, code}
use gian_proxies.Base.{ℕ, String, str_append, Bool, true, false, List, [], ◌∷◌, ◌==◌, if◌then◌else◌}

-- An element of `lcsOps`' result, by its `kind`.
pub data Op : Type 0 where
  same del add : String → Op

pub record DiffHunk : Type 0 where
  pub old_start : ℕ
  pub old_lines : ℕ
  pub new_start : ℕ
  pub new_lines : ℕ
  pub lines : List String

-- The lines that a script has on its old and on its new side.
abbrev pub olds : List Op → List String
olds [] = []
olds (same x ∷ ops) = x ∷ olds ops
olds (del x ∷ ops) = x ∷ olds ops
olds (add x ∷ ops) = olds ops

abbrev pub news : List Op → List String
news [] = []
news (same x ∷ ops) = x ∷ news ops
news (del x ∷ ops) = news ops
news (add x ∷ ops) = x ∷ news ops

-- `text.split('\n')`: the line that is being read is the first of the result.
abbrev add_char : Char → List String → List String
add_char c [] = String.◌∷◌ c String.[] ∷ []
add_char c (line ∷ rest) = String.◌∷◌ c line ∷ rest

unfoldable pub split_newline : String → List String
split_newline String.[] = "" ∷ []
split_newline (String.◌∷◌ c s) =
    let rest = split_newline s in if code c == b'\n' then "" ∷ rest else add_char c rest

-- `if (lines.at(-1) === '') lines.pop()`
unfoldable pub pop_empty_last : List String → List String
pop_empty_last [] = []
pop_empty_last (String.[] ∷ []) = []
pop_empty_last (line ∷ rest) = line ∷ pop_empty_last rest

unfoldable pub split_lines : String → List String
unfolding split_newline pop_empty_last
split_lines String.[] = []
split_lines (String.◌∷◌ c s) = pop_empty_last (split_newline (String.◌∷◌ c s))
