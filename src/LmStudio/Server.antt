-- ===== src/LmStudio/Server.antt =====
-- benchmark/lmstudio_meta.py: which server a URL names, and whether it may be asked. `none` is an
-- exception.
use csharp_llm_benchmark.Prelude.{
  ℕ, ◌-◌, Option, none, some, [], ◌∷◌, take, length, any, leb, Bool, true, false, not, ◌&&◌, ◌||◌,
  ◌==◌, nat_eq, ◌>>=◌, if◌then◌else◌,
}
use csharp_llm_benchmark.Prelude.Text.{Text, codes, text_eq, starts_with, ends_with, rstrip, split}
use csharp_llm_benchmark.Json.Python.{Python, empty_text}

abbrev pub slash : ℕ
slash = 47

abbrev pub dot : ℕ
dot = 46

unfoldable pub derive_base_root : Text → Text
derive_base_root base_url =
    let stripped = rstrip slash base_url in
    if ends_with (codes "/v1") stripped then take (length stripped - 3) stripped else stripped

abbrev pub is_private : ℕ → ℕ → Bool
is_private first second =
    first == 127
    || first == 10
    || first == 172 && (leb 16 second && leb second 31)
    || first == 192 && second == 168

module _ (py : Python) where
  -- A part of digits that `int` does not read is a ValueError.
  unfoldable pub is_private_ipv4 : Text → Option Bool
  is_private_ipv4 host = elim (split dot host) [
    | (a ∷ b ∷ c ∷ d ∷ []) ↦
        let octets = (do
          first ← py.digits a
          second ← py.digits b
          some (is_private first second)) in
        if py.is_digit a && (py.is_digit b && (py.is_digit c && py.is_digit d))
        then octets
        else some false
    | _ ↦ some false
  ]

  unfoldable pub is_local_host : Text → Option Bool
  unfolding is_private_ipv4
  is_local_host hostname =
      let lowered = py.lower hostname in
      let suffix = ends_with (codes ".local") lowered || ends_with (codes ".lan") lowered in
      let named = (do
        private ← is_private_ipv4 hostname
        some (private || not (any (λ c. c == dot) hostname) || suffix)) in
      if empty_text hostname
      then some false
      else if lowered == codes "localhost"
          || lowered == codes "::1"
          || starts_with (codes "127.") lowered
      then some true
      else named

  abbrev pub or_empty : Option Text → Text
  or_empty none = []
  or_empty (some t) = t

  unfoldable pub is_local_server : Text → Option Bool
  unfolding is_local_host
  is_local_server base_url = elim (py.hostname base_url) [
    | none ↦ some false
    | some hostname ↦ is_local_host (rstrip dot (or_empty hostname))
  ]
