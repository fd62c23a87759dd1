-- ===== src/Url/Shape.antt =====
-- What it is for a URL to have given parts, as the comment of `Parse` writes it:
-- scheme://[user_pass@]host[:port][/path_query_fragment].
use grpc_over_ayame.Base.{ℕ, ◌≡◌, ◌≢◌, ◌⊎◌, [], ◌∷◌, ◌++◌, Bytes, All-append}
use grpc_over_ayame.Url.{UrlParts, separator}
use grpc_over_ayame.Url.Search.{Lacks}

abbrev pub LacksSeparator : Bytes → Type 0
LacksSeparator s = (a b : Bytes) → s ≢ a ++ separator ++ b

-- How the user is written: not at all, or in front of a `@`.
abbrev pub IsUserPart : Bytes → Bytes → Type 0
IsUserPart user written = ((user ≡ []) × (written ≡ [])) ⊎ (written ≡ user ++ b'@' ∷ [])

abbrev pub IsPortPart : Bytes → Bytes → Type 0
IsPortPart port written = ((port ≡ []) × (written ≡ [])) ⊎ (written ≡ b':' ∷ port)

abbrev pub IsPath : Bytes → Type 0
IsPath path = (path ≡ []) ⊎ ((rest : Bytes) × (path ≡ b'/' ∷ rest))

-- Each delimiter is the first of its kind in the piece that it cuts.
pub record Decomposes (url : Bytes) (p : UrlParts) : Type 0 where
  pub user_part : Bytes
  pub port_part : Bytes
  pub whole :
      url
      ≡ (p.scheme ++ separator) ++ ((user_part ++ (p.host ++ port_part)) ++ p.path_query_fragment)
  pub user_is : IsUserPart p.user_pass user_part
  pub port_is : IsPortPart p.port port_part
  pub path_is : IsPath p.path_query_fragment
  pub scheme_lacks : LacksSeparator p.scheme
  pub user_lacks : Lacks b'/' p.user_pass × Lacks b'@' p.user_pass
  pub host_lacks : Lacks b'/' p.host × Lacks b':' p.host
  pub port_lacks : Lacks b'/' p.port
  pub no_user : user_part ≡ [] → Lacks b'@' (p.host ++ port_part)

-- The parts of a concatenation lack what the whole lacks.
pub Lacks-left : (c : ℕ) (xs ys : Bytes) → Lacks c (xs ++ ys) → Lacks c xs
Lacks-left c [] ys h = tt
Lacks-left c (x ∷ xs) ys h = (h.0, Lacks-left c xs ys h.1)

pub Lacks-right : (c : ℕ) (xs ys : Bytes) → Lacks c (xs ++ ys) → Lacks c ys
Lacks-right c [] ys h = h
Lacks-right c (x ∷ xs) ys h = Lacks-right c xs ys h.1

pub Lacks-append : (c : ℕ) (xs ys : Bytes) → Lacks c xs → Lacks c ys → Lacks c (xs ++ ys)
Lacks-append c = All-append (λ x. x ≢ c)
