-- ===== src/Url.antt =====
-- src/url_parts.h: `URLParts::Parse`, over the bytes of the text. The searches and `substr` are
-- those of `std::string`; a `substr` that starts behind the end throws, which is `none` here.
pub mod Search
pub mod Cut
pub mod Shape
pub mod Inverse
pub mod Total
use mathlib.Core.Option
use grpc_over_ayame.Base.{
  ℕ, zero, suc, ◌+◌, ◌-◌, Bool, true, false, ◌&&◌, Option, none, some, List, [], ◌∷◌, Bytes, codes,
  if◌then◌else◌, ◌==◌, ltb, length, take, drop,
}

pub record UrlParts : Type 0 where
  pub scheme : Bytes
  pub user_pass : Bytes
  pub host : Bytes
  pub port : Bytes
  pub path_query_fragment : Bytes

infixl 5 ◌>>=◌
abbrev pub ◌>>=◌ {ℓ κ} : {A : Type ℓ} {B : Type κ} → Option A → (A → Option B) → Option B
m >>= f = elim m [ none ↦ none | some a ↦ f a ]

abbrev pub separator : Bytes
separator = codes "://"

unfoldable pub starts : Bytes → Bytes → Bool
starts [] s = true
starts (p ∷ ps) [] = false
starts (p ∷ ps) (x ∷ xs) = p == x && starts ps xs

-- `s.find(text)`; `none` is `npos`.
unfoldable pub find_text : Bytes → Bytes → Option ℕ
unfolding starts
find_text text [] = if starts text [] then some 0 else none
find_text text (x ∷ xs) =
    if starts text (x ∷ xs) then some 0 else Option.map (λ i. suc i) (find_text text xs)

-- `s.find(c)`.
unfoldable pub find_char : ℕ → Bytes → Option ℕ
find_char c [] = none
find_char c (x ∷ xs) = if x == c then some 0 else Option.map (λ i. suc i) (find_char c xs)

-- `s.find(c, n)`.
unfoldable pub find_from : ℕ → Bytes → ℕ → Option ℕ
unfolding find_char
find_from c s n = Option.map (λ i. n + i) (find_char c (drop n s))

-- `s.substr(n)` and `s.substr(n, count)`.
unfoldable pub substr_from : Bytes → ℕ → Option Bytes
substr_from s n = if ltb (length s) n then none else some (drop n s)

unfoldable pub substr : Bytes → ℕ → ℕ → Option Bytes
unfolding substr_from
substr s n count = do rest ← substr_from s n; some (take count rest)

-- The authority and the path behind position `n`.
unfoldable pub split_path : Bytes → ℕ → Option (Bytes × Bytes)
unfolding find_from substr substr_from
split_path url n = elim (find_from b'/' url n) [
  | none ↦ do user_pass_host_port ← substr_from url n; some (user_pass_host_port, [])
  | some m ↦ do
    user_pass_host_port ← substr url n (m - n)
    path_query_fragment ← substr_from url m
    some (user_pass_host_port, path_query_fragment)
]

-- The user part and what follows it.
unfoldable pub split_user : Bytes → Option (Bytes × Bytes)
unfolding find_char substr substr_from
split_user user_pass_host_port = elim (find_char b'@' user_pass_host_port) [
  | none ↦ some ([], user_pass_host_port)
  | some m ↦ do
    user_pass ← substr user_pass_host_port 0 m
    host_port ← substr_from user_pass_host_port (m + 1)
    some (user_pass, host_port)
]

-- The host and the port.
unfoldable pub split_port : Bytes → Option (Bytes × Bytes)
unfolding find_char substr substr_from
split_port host_port = elim (find_char b':' host_port) [
  | none ↦ some (host_port, [])
  | some m ↦ do host ← substr host_port 0 m; port ← substr_from host_port (m + 1); some (host, port)
]

-- `Parse(url, parts)`: its result and the new `parts`; `none` if a `substr` throws.
unfoldable pub parse : Bytes → UrlParts → Option (Bool × UrlParts)
unfolding find_text split_path split_user split_port
parse url parts = elim (find_text separator url) [
  | none ↦ some (false, parts)
  | some n ↦ do
    scheme ← substr url 0 n
    (user_pass_host_port, path_query_fragment) ← split_path url (n + 3)
    (user_pass, host_port) ← split_user user_pass_host_port
    (host, port) ← split_port host_port
    some (
      true,
      record {
        scheme = scheme;
        user_pass = user_pass;
        host = host;
        port = port;
        path_query_fragment = path_query_fragment;
      },
    )
]
