-- ===== src/Media/Address.antt =====
-- media/safe-download.ts: `isForbiddenAddress`.
use text.Mathlib.Text.{starts_with}
use forum_relay.Common.{
  ℕ, String, Bool, true, ◌&&◌, ◌||◌, List, none, some, get_elem?, ◌==◌, string_eq, ℕ_eq, leb,
  if◌then◌else◌,
}

-- `octets[i] ?? 0`
abbrev pub octet : List ℕ → ℕ → ℕ
octet os i = elim (get_elem? os i) [ none ↦ 0 | some o ↦ o ]

unfoldable pub is_forbidden_v4 : ℕ → ℕ → Bool
is_forbidden_v4 first second =
    first == 0
    || first == 10
    || first == 127
    || (first == 100 && leb 64 second && leb second 127)
    || (first == 169 && second == 254)
    || (first == 172 && leb 16 second && leb second 31)
    || (first == 192 && second == 0)
    || (first == 192 && second == 168)
    || leb 224 first

unfoldable pub is_forbidden_v6 : String → Bool
is_forbidden_v6 s =
    s == "::"
    || s == "::1"
    || starts_with s "fc"
    || starts_with s "fd"
    || starts_with s "fe8"
    || starts_with s "fe9"
    || starts_with s "fea"
    || starts_with s "feb"
    || starts_with s "ff"
    || starts_with s "::ffff:"

unfoldable pub is_forbidden_address :
    (String → String) → (String → ℕ) → (String → List ℕ) → String → Bool
unfolding is_forbidden_v4 is_forbidden_v6
is_forbidden_address lower is_ip octets address =
    let normalized = lower address in
    if is_ip normalized == 4
    then is_forbidden_v4 (octet (octets normalized) 0) (octet (octets normalized) 1)
    else if is_ip normalized == 6
    then is_forbidden_v6 normalized
    else true
