-- ===== src/Platform/Text.antt =====
-- The functions on texts of Go's packages `strings`, `regexp`, `net/mail` and of the language itself.
use auto_store_api.Prelude.{ℕ, ◌≡◌, Bool, true, Option, String, ◌<◌, ◌≤◌}

pub record Texts : Type 0 where
  -- `strings.ToLower`, `strings.TrimSpace` and `strings.Trim(s, "-")`.
  pub lower : String → String
  pub trim_space : String → String
  pub trim_dashes : String → String
  -- `regexp.MustCompile("[^a-z0-9]+").ReplaceAllString(s, "-")`
  pub dashed : String → String
  -- `len(s)`, `s[:n]`, and `len(s) > 0 && s[len(s)-1] == '-'`.
  pub byte_len : String → ℕ
  pub prefix : ℕ → String → String
  pub ends_dashed : String → Bool
  pub len_prefix : (n : ℕ) (s : String) → n ≤ byte_len s → byte_len (prefix n s) ≡ n
  pub len_dashed : (s : String) → ends_dashed s ≡ true → 0 < byte_len s
  -- `strings.SplitN(s, " ", 2)`, if that has two parts.
  pub split_space : String → Option (String × String)
  -- `mail.ParseAddress` accepts the text.
  pub is_mail : String → Bool
